-- ===== src/Documents.antt =====
-- backend/app/services/documents_service.py, and the currency rules of currency_service.py that it
-- calls.
pub mod Rules
pub mod Numbers
pub mod Stock
pub mod Totals
pub mod Drafts
pub mod Posting

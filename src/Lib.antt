-- ===== src/Lib.antt =====
-- The accounting core of the backend (stock documents, payments, cash, warehouse tasks, prices,
-- exchange rates, accounts and imports) and the
-- reader of the legacy database.
--
-- The program (backend/app) is a web service over a relational database. Its services are modelled
-- as functions from a session `Db` (the tables as lists, Models/) to a `Result`: `ok` with the new
-- session, or the error that the service raises, which rolls the session back. Amounts are whole
-- hundredths, quantities whole thousandths and exchange rates whole millionths, in ℤ over the
-- native numbers; dates and times are numbers, and texts are lists of code points.
--
-- The parts and their files:
--   Base             shared helpers: Boolean tests, lists, keyed rows, ℤ, Python's rounding, stable
--                    sorting and the first row of a sort (Base/Newest), the error monad of
--                    HTTPException (Base/Http), calls without other exceptions (Base/Crashes),
--                    calls that return (Base/Returns) and what they return (Base/Ensures)
--   Models           models/*.py: the rows; Models/Session is the session and write_audit of
--                    services/audit_writer.py
--   Documents        services/documents_service.py: Rules (validation, totals, currencies, with
--                    services/currency_service.py), Numbers (numbering), Drafts (draft
--                    operations), Stock (balances, movements, planning), Posting (post_document,
--                    repost_document, cancel_document; Posting/Applying has post_document);
--                    Stock/* and Posting/* hold their lemmas, Posting/Lifecycle sequences of
--                    calls, Totals the rounding of totals
--   Payments         services/payments_service.py: operations on payments; Statement has the
--                    partner balances and statements, Allocations the invariant between payments
--                    and documents, Validation the checks; Keeps, Drafts, Posting and Reposting
--                    go through the operations of both services, Histories through sequences
--                    of their calls
--   Cash             services/cash_service.py: cash operations and their ledger; Book has the cash
--                    book and its pages
--   Logistics        services/logistics_service.py: warehouse tasks of posted documents;
--                    Tasks has their generation, Transitions their life cycle as a step relation,
--                    Histories sequences of calls
--   Pricing          services/product_pricing_service.py: Purchases has the last purchase of a
--                    product, Markup the review of its price
--   Currencies       services/currency_service.py: exchange rates; Latest has the newest rate
--   Accounts         services/users_service.py (Users), core/security.py (passwords) and the login
--                    of api/routes/auth.py; Assignments has the warehouses of logistics users,
--                    Lockout the lock after wrong passwords
--   Imports          services/import_service.py: the rows of a file; Stock has the validation and the
--                    import of opening stock, Clean, Quantities and Books its stock, Counts
--                    the summary, Debts the import of partner balances
--   Interbase        tools/interbase/gdb_reader.py, without a database session: Bytes (slices and
--                    struct), Rle (rle_decompress, with an encoder of its own), Tables (constants,
--                    records and the system tables), Pages (slots, records and fragments), Blobs,
--                    Values (the fields of a record), Opening (header and scan), Rows (a page of
--                    the rows of a table)
--   Examples         a small shop and the theorems applied to it
--
-- Posting a document plans its stock movements from the balances, writes both back and creates
-- warehouse tasks; posting a payment validates its allocations against the documents and creates
-- a cash operation. Definitions keep the names of the functions they model, without the leading
-- underscore. The SQL queries are list functions over the tables with the same conditions.
--
-- The reader is a function of the bytes of the file: a list of numbers below 256, whose order in
-- struct's formats is little-endian. A KeyError, struct.error, IndexError or ValueError is a `crash`
-- of the same Result. A generator is the list of what it yields. The Unicode tables of casefold, the
-- formats of dates and decimals and the rounding of floats are a parameter (Rows.Python), and a
-- float is its bit pattern. Password hashes take pbkdf2 and base64 as a parameter
-- (Accounts.Platform), imports what openpyxl, csv and Decimal read (Imports.Table, Imports.Python),
-- for numbers that the columns hold exactly.
--
-- Numbers of any size stand for the database's NUMERIC columns. Most loops run over rows or bytes.
-- The others have fuel: printing a number has the number itself, rle_decompress the number of bytes,
-- of which each round takes one, _read_blob_pages the seven calls that its own depth allows, and a
-- quotient 30 places beyond the 13 that it has at least.
--
-- Not modelled: row locks and advisory locks, which change no row; the JSON texts of audit details
-- and snapshots (a snapshot is the document itself); read-only listings; routes, schemas'
-- serialisation, reports, exports, access tokens, migrations, scripts and the frontend; the refusal of
-- a document number that another transaction has taken, at a commit; imports of partners,
-- products and warehouses; of the legacy reader _build_schema with the formats of the
-- tables, the list of tables and the command line.
pub mod Base
pub mod Models
pub mod Cash
pub mod Logistics
pub mod Documents
pub mod Payments
pub mod Accounts
pub mod Imports
pub mod Pricing
pub mod Currencies
pub mod Interbase
mod Examples

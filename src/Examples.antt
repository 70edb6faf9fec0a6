-- ===== src/Examples.antt =====
-- Concrete sessions, and each theorem with hypotheses applied to one.
mod Sample
mod Accounts
mod Cash
mod Documents
mod Imports
mod Lifecycle
mod Legacy
mod Logistics
mod Prices
mod Payments
mod Allocations

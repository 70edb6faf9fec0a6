-- ===== src/Models/Accounting.antt =====
-- models/accounting.py: payments, their allocations, cash operations and the audit log.
use faethon_system.Base.{ℕ, ℤ, String, Text, Option, List}
use faethon_system.Models.Documents.{Status}

-- `Payment.TYPE_*`; `other` is any other string
pub data PaymentType : Type 0 where
  customer_payment supplier_payment refund other : PaymentType

pub record PaymentAllocation : Type 0 where
  pub document_id : ℕ
  pub amount : ℤ

-- the `Payment.allocations` relation is kept in the payment
pub record Payment : Type 0 where
  pub id : ℕ
  pub partner_id : Option ℕ
  pub document_id : Option ℕ
  pub payment_date : ℕ
  pub payment_type : PaymentType
  pub status : Status
  pub amount : ℤ
  pub method : Option Text
  pub note : Option Text
  pub allocations : List PaymentAllocation

-- `CashOperation.TYPE_*`; `other` is any other string
pub data CashType : Type 0 where
  cash_in cash_out correction other : CashType

-- the `direction` column: "in", "out" or "correction"
pub data Direction : Type 0 where
  inward outward neutral : Direction

pub data CashStatus : Type 0 where
  posted cancelled : CashStatus

-- `id` is `None` while an operation is pending
pub record CashOperation : Type 0 where
  pub id : Option ℕ
  pub operation_date : ℕ
  pub operation_type : CashType
  pub direction : Direction
  pub status : CashStatus
  pub amount : ℤ
  pub target_balance : Option ℤ
  pub partner_id : Option ℕ
  pub document_id : Option ℕ
  pub payment_id : Option ℕ
  pub note : Option Text

-- the `details` text is not modelled
pub record AuditLog : Type 0 where
  pub entity_type : String
  pub entity_id : ℕ
  pub action : String

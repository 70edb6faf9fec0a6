-- ===== src/Models/Documents.antt =====
-- models/documents.py and models/stock.py.
use faethon_system.Base.{ℕ, ℤ, String, Text, Option, List}

-- `Document.TYPE_*`; `other` is any other string
pub data DocumentType : Type 0 where
  incoming outgoing adjustment transfer other : DocumentType

pub data Status : Type 0 where
  draft posted cancelled : Status

pub record DocumentLine : Type 0 where
  pub id : ℕ
  pub product_id : ℕ
  pub quantity : ℤ
  pub price : ℤ
  pub line_total : ℤ
  pub foreign_price : Option ℤ
  pub foreign_line_total : Option ℤ

pub record Document : Type 0 where
  pub id : ℕ
  pub document_type : DocumentType
  pub number : Text
  pub document_date : ℕ
  pub status : Status
  pub partner_id : Option ℕ
  pub warehouse_id : Option ℕ
  pub destination_warehouse_id : Option ℕ
  pub total_amount : ℤ
  pub currency_code : Text
  pub exchange_rate : ℤ
  pub foreign_total_amount : ℤ
  pub posting_version : ℕ
  pub note : Option Text
  pub lines : List DocumentLine

-- the `snapshot` is kept as the document itself; its JSON text is not modelled
pub record DocumentRevision : Type 0 where
  pub document_id : ℕ
  pub version : ℕ
  pub reason : Text
  pub snapshot : Document

pub data MovementKind : Type 0 where
  apply reverse : MovementKind

-- `quantity_delta` is in thousandths; the reason is "<prefix>:<type>:v<version>", or `none` for that of
-- an import
pub record StockMovement : Type 0 where
  pub product_id : ℕ
  pub warehouse_id : ℕ
  pub document_id : Option ℕ
  pub posting_version : Option ℕ
  pub movement_kind : Option MovementKind
  pub quantity_delta : ℤ
  pub reason : Option (String × DocumentType × ℕ)

pub record StockBalance : Type 0 where
  pub product_id : ℕ
  pub warehouse_id : ℕ
  pub quantity : ℤ

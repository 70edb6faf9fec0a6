-- ===== src/Models/Logistics.antt =====
-- models/logistics.py.
use faethon_system.Base.{ℕ, ℤ, String, Text, Option, List}

pub data TaskType : Type 0 where
  incoming_receive outgoing_dispatch transfer_dispatch transfer_receive : TaskType

pub data TaskStatus : Type 0 where
  blocked pending in_transit in_progress needs_review completed cancelled : TaskStatus

pub data LineStatus : Type 0 where
  pending confirmed discrepancy : LineStatus

pub record WarehouseTaskLine : Type 0 where
  pub id : ℕ
  pub product_id : ℕ
  pub expected_quantity : ℤ
  pub actual_quantity : Option ℤ
  pub sale_price : ℤ
  pub status : LineStatus
  pub comment : Option Text

pub record WarehouseTask : Type 0 where
  pub id : ℕ
  pub document_id : ℕ
  pub posting_version : ℕ
  pub warehouse_id : ℕ
  pub task_type : TaskType
  pub status : TaskStatus
  pub assigned_to_id : Option ℕ
  pub started_at : Option ℕ
  pub completed_at : Option ℕ
  pub lines : List WarehouseTaskLine

pub record WarehouseTaskEvent : Type 0 where
  pub task_id : ℕ
  pub event_type : String
  pub from_status : Option TaskStatus
  pub to_status : Option TaskStatus
  pub note : Option Text

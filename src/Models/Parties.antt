-- ===== src/Models/Parties.antt =====
-- models/partners.py, models/products.py, models/identity.py and the currency of
-- models/accounting.py: the columns that the services read.
use faethon_system.Base.{ℕ, ℤ, String, Text, Bool, Option, List}

-- `Partner.TYPE_*`; `other` is any other string
pub data PartnerType : Type 0 where
  customer supplier both other : PartnerType

pub record Partner : Type 0 where
  pub id : ℕ
  pub name : String
  pub partner_type : PartnerType

pub record Product : Type 0 where
  pub id : ℕ
  pub name : String
  pub base_price : Option ℤ
  pub is_active : Bool

-- `permissions` is only asked for "logistics.review"
pub record User : Type 0 where
  pub id : ℕ
  pub can_review : Bool
  pub warehouse_ids : List ℕ

-- names, symbols and `is_active` are not read by the rules
pub record Currency : Type 0 where
  pub code : Text
  pub is_base : Bool

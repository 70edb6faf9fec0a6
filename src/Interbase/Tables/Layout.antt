-- ===== src/Interbase/Tables/Layout.antt =====
-- The offsets of the columns of a system table.
use faethon_system.Base.{
  ℕ, ◌+◌, ◌*◌, ◌≤◌, ◌≡◌, refl, List, [], ◌∷◌, All, length, arith, Bool-cases, inl, inr, ◌==◌, ◌++◌,
}
use faethon_system.Base.{ok}
use faethon_system.Interbase.Tables.{
  Table, Field, Database, field_size, place_columns, place_system_fields, null_bitmap_size,
}
use faethon_system.Interbase.Tables.System.{init_system_tables}

-- From `start` on, every column starts where the one before it ends, or later.
abbrev pub InOrder : ℕ → List Field → Type 0
InOrder start [] = Unit
InOrder start (column ∷ columns) =
    (start ≤ column.offset) × InOrder (column.offset + field_size column) columns

-- The null flags of the columns, a bit each from the first byte on, stand before the columns.
abbrev pub BitmapFits : List Field → Type 0
BitmapFits fields = length fields ≤ 8 * null_bitmap_size fields

abbrev pub LaidOut : Table → Type 0
LaidOut table = InOrder (null_bitmap_size table.fields) table.fields × BitmapFits table.fields

-- init_system_tables returns, and every system table is laid out: its null flags stand before its
-- columns, and no column starts before the end of the one before it.
pub init_system_tables-LaidOut :
    (db : Database)
    → (placed : Database) × (init_system_tables db ≡ ok placed)
      × (tables : List Table) × (placed.tables ≡ db.tables ++ tables)
      × All LaidOut tables
unfolding init_system_tables place_system_fields place_columns field_size
init_system_tables-LaidOut db = elim (Bool-cases (db.ods_major == 10)) [
  | inl e ↦ rw e (_, refl, _, refl, (ground arith))
  | inr e ↦ rw e (_, refl, _, refl, (ground arith))
]

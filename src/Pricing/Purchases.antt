-- ===== src/Pricing/Purchases.antt =====
-- The purchase that the pricing of a product starts from.
use faethon_system.Base.{ℕ, true, false, some, All, ◌≡◌, arith}
use faethon_system.Base.Newest.{Among, first-sort}
use faethon_system.Models.{Db}
use faethon_system.Pricing.{PurchaseLine, newer, purchases_of, latest_purchase}

newer_total : (a b : PurchaseLine) → newer a b ≡ false → newer b a ≡ true
newer_total a b h = ground arith

newer_trans : (a b c : PurchaseLine) → newer a b ≡ true → newer b c ≡ true → newer a c ≡ true
newer_trans a b c h k = ground arith

-- The latest purchase of a product is a line of a posted incoming document with this product, and
-- no such line is newer, by date, then by document, then by line.
pub latest_purchase_newest :
    (db : Db) (product_id : ℕ) (line : PurchaseLine)
    → latest_purchase db product_id ≡ some line
    → Among line (purchases_of db product_id)
      × All (λ other. newer line other ≡ true) (purchases_of db product_id)
unfolding latest_purchase
latest_purchase_newest db product_id line h =
    first-sort newer newer_total newer_trans (purchases_of db product_id) line h

-- ===== src/Pricing.antt =====
-- backend/app/services/product_pricing_service.py: the last purchase of a product, its markup and its
-- minimum price.
--
-- Amounts are whole hundredths of at most 14 digits (NUMERIC(14, 2)), and a markup is in hundredths
-- of a percent.
pub mod Markup
pub mod Purchases
use faethon_system.Base.{
  ℕ, zero, suc, ◌+◌, ◌*◌, ◌^◌, ltb, leb, ◌==◌, ℤ, pos, negsuc, neg, pos_part, ◌-ℤ◌, ◌*ℤ◌, ltb_ℤ,
  leb_ℤ, Bool, true, false, ◌&&◌, ◌||◌, Option, none, some, List, [], ◌∷◌, ◌++◌, map, filter, Text,
  if◌then◌else◌,
}
use faethon_system.Base.Decimal.{round_half_even, round_half_up, by_magnitude, quantize_half_up}
use faethon_system.Base.Sort.{sort}
use faethon_system.Base.Newest.{first}
use faethon_system.Models.{Db, Document, DocumentLine, Product, incoming}
use faethon_system.Documents.Rules.{is_incoming}
use faethon_system.Logistics.{is_posted}

-- The row of a line in `_ranked_purchase_lines`.
pub record PurchaseLine : Type 0 where
  pub product_id : ℕ
  pub purchase_cost : ℤ
  pub document_id : ℕ
  pub document_number : Text
  pub document_date : ℕ
  pub line_id : ℕ

abbrev pub purchase_line : Document → DocumentLine → PurchaseLine
purchase_line d line = record {
  product_id = line.product_id;
  purchase_cost = line.price;
  document_id = d.id;
  document_number = d.number;
  document_date = d.document_date;
  line_id = line.id;
}

-- The lines of the posted incoming documents, before the ranking.
unfoldable pub purchase_lines : List Document → List PurchaseLine
purchase_lines [] = []
purchase_lines (d ∷ documents) =
    let rest = purchase_lines documents in
    if is_incoming d.document_type && is_posted d.status
    then map (purchase_line d) d.lines ++ rest
    else rest

-- The order of the ranking: date, document and line, all descending.
abbrev pub newer : PurchaseLine → PurchaseLine → Bool
newer a b =
    ltb b.document_date a.document_date
    || (a.document_date == b.document_date
        && (ltb b.document_id a.document_id
            || (a.document_id == b.document_id && leb b.line_id a.line_id)))

-- The purchases of one product.
abbrev pub purchases_of : Db → ℕ → List PurchaseLine
purchases_of db product_id =
    filter (λ line. line.product_id == product_id) (purchase_lines db.documents)

-- The row of rank 1.
unfoldable pub latest_purchase : Db → ℕ → Option PurchaseLine
latest_purchase db product_id = first (sort newer (purchases_of db product_id))

-- The number of decimal places that a quotient of 28 digits has. A quotient of two amounts of 14
-- digits has 13 places at least and 42 at most.
unfoldable pub quotient_places : ℕ → ℕ → ℕ → ℕ → ℕ
quotient_places zero n d places = places
quotient_places (suc fuel) n d places = elim (leb (d * 10 ^ 27) (n * 10 ^ places)) [
  | true ↦ places
  | false ↦ quotient_places fuel n d (places + 1)
]

-- `(n / d * Decimal("100")).quantize(Decimal("0.01"), ROUND_HALF_UP)` in hundredths: `scale` is
-- ten to the places of the quotient.
abbrev pub scaled_percent : ℕ → ℕ → ℕ → ℕ
scaled_percent scale n d = round_half_up scale (round_half_even d (n * scale) * 10_000)

unfoldable pub percent_of : ℕ → ℕ → ℕ
percent_of n d = scaled_percent (10 ^ quotient_places 30 n d 13) n d

-- `MINIMUM_MARKUP_PERCENT`
abbrev pub minimum_markup_percent : ℤ
minimum_markup_percent = pos 1000

pub record Pricing : Type 0 where
  pub markup_percent : Option ℤ
  pub minimum_sale_price : Option ℤ
  pub price_review_required : Bool

-- The markup on a cost above zero.
unfoldable pub markup : ℤ → ℤ → ℤ
markup sale_price purchase_cost =
    by_magnitude (λ n. percent_of n (pos_part purchase_cost)) (sale_price -ℤ purchase_cost)

-- `purchase_cost * (1 + 10.00 / 100)`, rounded to hundredths
unfoldable pub minimum_price : ℤ → ℤ
minimum_price purchase_cost = quantize_half_up 10 (purchase_cost *ℤ pos 11)

unfoldable pub pricing_values : Option ℤ → Option ℤ → Pricing
pricing_values sale_price none = record {
  markup_percent = none;
  minimum_sale_price = none;
  price_review_required = false;
}
pricing_values none (some purchase_cost) = record {
  markup_percent = none;
  minimum_sale_price = some (minimum_price purchase_cost);
  price_review_required = if leb_ℤ purchase_cost (pos 0) then false else true;
}
pricing_values (some sale_price) (some purchase_cost) =
    let percent = markup sale_price purchase_cost in
    if leb_ℤ purchase_cost (pos 0)
    then record {
      markup_percent = none;
      minimum_sale_price = some (minimum_price purchase_cost);
      price_review_required = false;
    }
    else record {
      markup_percent = some percent;
      minimum_sale_price = some (minimum_price purchase_cost);
      price_review_required = ltb_ℤ percent minimum_markup_percent;
    }

-- A product with the attributes that `attach_product_pricing` sets.
pub record PricedProduct : Type 0 where
  pub product : Product
  pub latest : Option PurchaseLine
  pub pricing : Pricing

abbrev pub cost_of : Option PurchaseLine → Option ℤ
cost_of none = none
cost_of (some line) = some line.purchase_cost

abbrev pub price_product : Db → Product → PricedProduct
price_product db product =
    let latest = latest_purchase db product.id in
    record {
      product = product;
      latest = latest;
      pricing = pricing_values product.base_price (cost_of latest);
    }

unfoldable pub attach_product_pricing : Db → List Product → List PricedProduct
attach_product_pricing db products = map (price_product db) products

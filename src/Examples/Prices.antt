-- ===== src/Examples/Prices.antt =====
-- product_pricing_service.py and currency_service.py on the sample shop.
use faethon_system.Base.{
  pos, ◌-ℤ◌, ◌*ℤ◌, true, false, none, some, ok, [], ◌∷◌, All, ◌≡◌, refl, arith, value_or, text, ℤ,
}
use faethon_system.Base.Newest.{Among}
use faethon_system.Base.Decimal.{quantize_half_up, round_half_up, round_half_even}
use faethon_system.Models.{Currency}
use faethon_system.Documents.Rules.{
  get_currency, seed_default_currencies, seed_currencies, seed_currency,
}
use faethon_system.Pricing.{
  PurchaseLine, purchase_line, purchase_lines, latest_purchase, pricing_values, markup,
  minimum_price, percent_of, quotient_places,
}
use faethon_system.Pricing.Markup.{pricing_values_accepts, pricing_values_reviews}
use faethon_system.Currencies.{
  ExchangeRate, ExchangeRateCreate, Rates, create_exchange_rate, latest_rate,
}
use faethon_system.Currencies.Latest.{Applies, IsPreferred, latest_rate_newest}
use faethon_system.Examples.Sample.{shop, purchase, sale_line}

abbrev bought : PurchaseLine
bought =
    purchase_line purchase
      (record sale_line { id = 11; quantity = pos 7000; line_total = pos 35000 })

bought_latest : latest_purchase shop 1 ≡ some bought
unfolding latest_purchase purchase_lines
bought_latest = refl

pricing_values_accepts_example :
    (pricing_values (some (pos 110)) (some (pos 100))).price_review_required ≡ false
pricing_values_accepts_example = pricing_values_accepts 110 100 (omega arith) (omega arith)

pricing_values_reviews_example :
    (pricing_values (some (pos 1099)) (some (pos 1000))).price_review_required ≡ true
pricing_values_reviews_example = pricing_values_reviews 1099 1000 (omega arith) (omega arith)

-- At a cost of 1.04 the minimum price is 1.14, and that price needs a review.
minimum_at_104 : minimum_price (pos 104) ≡ pos 114
unfolding minimum_price quantize_half_up ◌*ℤ◌
minimum_at_104 = refl

review_at_114 : (pricing_values (some (pos 114)) (some (pos 104))).price_review_required ≡ true
unfolding pricing_values markup percent_of quotient_places minimum_price round_half_up
    round_half_even ◌-ℤ◌ ◌*ℤ◌
review_at_114 = refl

abbrev dollar : Currency
dollar = record { code = text "USD"; is_base = false }

abbrev request : ExchangeRateCreate
request = record {
  currency_code = text "USD";
  rate_date = 20;
  rate_to_base = pos 16_100_000;
  note = none;
}

abbrev old_rate : ExchangeRate
old_rate = record {
  id = 90;
  currency = text "USD";
  rate_date = 10;
  rate_to_base = pos 16_000_000;
  note = none;
}

abbrev older_rate : ExchangeRate
older_rate = record old_rate { id = 91; rate_date = 5; rate_to_base = pos 15_900_000 }

-- after the asked date
abbrev later_rate : ExchangeRate
later_rate = record old_rate { id = 92; rate_date = 18; rate_to_base = pos 16_200_000 }

abbrev quoted : Rates
quoted = record { db = shop; exchange_rates = older_rate ∷ later_rate ∷ old_rate ∷ [] }

abbrev stored : ExchangeRate × Rates
stored = value_or (old_rate, quoted) (create_exchange_rate quoted request)

create_succeeds : create_exchange_rate quoted request ≡ ok stored
unfolding create_exchange_rate get_currency seed_default_currencies seed_currencies seed_currency
create_succeeds = refl

abbrev asked : ℤ × Rates
asked = value_or (pos 0, quoted) (latest_rate quoted (text "USD") (some 15))

latest_succeeds : latest_rate quoted (text "USD") (some 15) ≡ ok asked
unfolding latest_rate get_currency seed_default_currencies seed_currencies seed_currency
latest_succeeds = refl

dollar_known : get_currency shop (text "USD") ≡ ok (dollar, seed_default_currencies shop)
unfolding get_currency seed_default_currencies seed_currencies seed_currency
dollar_known = refl

latest_rate_newest_example :
    (rate : ExchangeRate) × (asked.0 ≡ rate.rate_to_base)
    × Among rate quoted.exchange_rates
    × Applies (text "USD") (some 15) rate
    × All (IsPreferred (text "USD") (some 15) rate) quoted.exchange_rates
latest_rate_newest_example =
    latest_rate_newest quoted (text "USD") (some 15) dollar (seed_default_currencies shop) asked
      dollar_known refl latest_succeeds

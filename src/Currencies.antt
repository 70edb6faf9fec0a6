-- ===== src/Currencies.antt =====
-- backend/app/services/currency_service.py: exchange rates, over the currencies of Documents/Rules.
--
-- A rate names its currency by the code, which is unique as the key is; rates are whole millionths.
pub mod Latest
use faethon_system.Base.{
  ℕ, ◌+◌, ltb, leb, ◌==◌, ℤ, pos, leb_ℤ, eqb_ℤ, Bool, true, not, ◌&&◌, ◌||◌, Option, none, some,
  List, [], ◌∷◌, ◌++◌, filter, Text, is_empty, Result, ok, ◌>>=◌, ◌>>◌, raise_if, or_raise,
  if◌then◌else◌,
}
use faethon_system.Base.Sort.{sort}
use faethon_system.Base.Newest.{first}
use faethon_system.Models.{Db, Currency, write_audit}
use faethon_system.Documents.Rules.{same_text, one_rate, seed_default_currencies, get_currency}

pub record ExchangeRate : Type 0 where
  pub id : ℕ
  pub currency : Text
  pub rate_date : ℕ
  pub rate_to_base : ℤ
  pub note : Option Text

pub record ExchangeRateCreate : Type 0 where
  pub currency_code : Text
  pub rate_date : ℕ
  pub rate_to_base : ℤ
  pub note : Option Text

-- The session with the table of exchange rates.
pub record Rates : Type 0 where
  pub db : Db
  pub exchange_rates : List ExchangeRate

-- `ExchangeRate.rate_date.desc(), ExchangeRate.id.desc()`
abbrev pub newer : ExchangeRate → ExchangeRate → Bool
newer a b = ltb b.rate_date a.rate_date || (a.rate_date == b.rate_date && leb b.id a.id)

-- `ExchangeRate(...)`
abbrev pub new_rate : ExchangeRateCreate → Currency → ℕ → ExchangeRate
new_rate payload currency id = record {
  id = id;
  currency = currency.code;
  rate_date = payload.rate_date;
  rate_to_base = payload.rate_to_base;
  note = payload.note;
}

-- `db.add(rate)` and what follows
abbrev pub add_rate : ExchangeRate → Db → List ExchangeRate → Rates
add_rate rate db rates = record {
  db = write_audit (record db { next_id = db.next_id + 1 }) "exchange_rate" rate.id "create";
  exchange_rates = rates ++ rate ∷ [];
}

unfoldable pub create_exchange_rate : Rates → ExchangeRateCreate → Result (ExchangeRate × Rates)
create_exchange_rate s payload = do
  found ← get_currency s.db payload.currency_code
  raise_if (found.0.is_base && not (eqb_ℤ payload.rate_to_base one_rate)) 422
      "Base currency rate must be 1"
  raise_if (leb_ℤ payload.rate_to_base (pos 0)) 422 "Exchange rate must be greater than zero"
  let rate = new_rate payload found.0 found.1.next_id
  ok (rate, add_rate rate found.1 s.exchange_rates)

abbrev pub of_currency : Text → ExchangeRate → Bool
of_currency code rate = same_text rate.currency code

unfoldable pub list_exchange_rates : Rates → Option Text → Result (List ExchangeRate × Rates)
list_exchange_rates s none =
    let db = seed_default_currencies s.db in ok (sort newer s.exchange_rates, record s { db = db })
list_exchange_rates s (some code) =
    let db = seed_default_currencies s.db in
    if is_empty code then ok (sort newer s.exchange_rates, record s { db = db }) else (do
      found ← get_currency db code
      ok (
        sort newer (filter (of_currency found.0.code) s.exchange_rates),
        record s { db = found.1 },
      ))

-- `if on_date is not None: ExchangeRate.rate_date <= on_date`
abbrev pub until : Option ℕ → ExchangeRate → Bool
until none rate = true
until (some on_date) rate = leb rate.rate_date on_date

-- The rates that `latest_rate` chooses from.
abbrev pub candidates : Rates → Text → Option ℕ → List ExchangeRate
candidates s code on_date =
    filter (λ rate. of_currency code rate && until on_date rate) s.exchange_rates

-- `latest_rate`; the session that it leaves has the default currencies.
unfoldable pub latest_rate : Rates → Text → Option ℕ → Result (ℤ × Rates)
latest_rate s code on_date = do
  found ← get_currency s.db code
  if found.0.is_base then ok (one_rate, record s { db = found.1 }) else (do
    rate ←
        or_raise (first (sort newer (candidates s found.0.code on_date))) 404
          "Exchange rate not found"
    ok (rate.rate_to_base, record s { db = found.1 }))

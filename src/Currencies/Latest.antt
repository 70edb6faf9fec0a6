-- ===== src/Currencies/Latest.antt =====
-- The rate that `latest_rate` returns, and the rates that `create_exchange_rate` stores.
use faethon_system.Base.{
  ℕ, ◌≤◌, ◌<◌, ltb, leb, ◌==◌, ==→eq, ==-refl, ap₂, Bool, Bool-cases, ◌⊎◌, inl, inr, none, some, ℤ,
  pos, leb_ℤ, eqb_ℤ, true, false, not, ◌&&◌, Option, List, [], ◌∷◌, ◌++◌, All, All-append, Text, ok,
  raise_if, raise_if-eq-ok, or_raise, or_raise-eq-ok, >>=-eq-ok, >>-eq-ok, ok-injective, ◌≡◌, refl,
  sym, ap, ◌∙◌, subst, arith,
}
use faethon_system.Base.Sort.{sort}
use faethon_system.Base.Newest.{first, Among, first-sort, kept-All, Among-filter}
use faethon_system.Models.{Db, Currency}
use faethon_system.Documents.Rules.{get_currency, one_rate, same_text}
use faethon_system.Currencies.{
  ExchangeRate, ExchangeRateCreate, Rates, newer, new_rate, create_exchange_rate, candidates,
  of_currency, until, latest_rate,
}

newer_total : (a b : ExchangeRate) → newer a b ≡ false → newer b a ≡ true
newer_total a b h = ground arith

newer_trans : (a b c : ExchangeRate) → newer a b ≡ true → newer b c ≡ true → newer a c ≡ true
newer_trans a b c h k = ground arith

and_parts : (a b : Bool) → (a && b) ≡ true → (a ≡ true) × (b ≡ true)
and_parts true true h = (refl, refl)
and_parts true false h = absurd (cc h)
and_parts false b h = absurd (cc h)

same_text→eq : (a b : Text) → same_text a b ≡ true → a ≡ b
same_text→eq [] [] h = refl
same_text→eq [] (y ∷ ys) h = absurd (cc h)
same_text→eq (x ∷ xs) [] h = absurd (cc h)
same_text→eq (x ∷ xs) (y ∷ ys) h =
    let parts = and_parts (x == y) (same_text xs ys) h in
    ap₂ (λ c cs. c ∷ cs) (==→eq x y parts.0) (same_text→eq xs ys parts.1)

same_text_refl : (t : Text) → same_text t t ≡ true
same_text_refl [] = refl
same_text_refl (c ∷ cs) = rw (==-refl c, same_text_refl cs)

-- The date is not later, if there is one.
abbrev pub Until : Option ℕ → ℕ → Type 0
Until none date = Unit
Until (some on_date) date = date ≤ on_date

-- A rate of the currency until the date.
abbrev pub Applies : Text → Option ℕ → ExchangeRate → Type 0
Applies code on_date rate = (rate.currency ≡ code) × Until on_date rate.rate_date

-- The other rate does not apply, or is of an earlier date, or of the same date and was not stored
-- later.
abbrev pub IsPreferred : Text → Option ℕ → ExchangeRate → ExchangeRate → Type 0
IsPreferred code on_date rate other =
    (¬ Applies code on_date other)
    ⊎ ((other.rate_date < rate.rate_date)
        ⊎ ((other.rate_date ≡ rate.rate_date) × (other.id ≤ rate.id)))

kept-Applies :
    (code : Text) (on_date : Option ℕ) (rate : ExchangeRate)
    → (of_currency code rate && until on_date rate) ≡ true
    → Applies code on_date rate
kept-Applies code none rate h =
    (same_text→eq rate.currency code (and_parts (of_currency code rate) true h).0, tt)
kept-Applies code (some on_date) rate h =
    let parts = and_parts (of_currency code rate) (leb rate.rate_date on_date) h in
    (same_text→eq rate.currency code parts.0, ground (arith, parts.1))

until-true :
    (on_date : Option ℕ) (rate : ExchangeRate)
    → Until on_date rate.rate_date
    → until on_date rate ≡ true
until-true none rate h = refl
until-true (some on_date) rate h = ground (arith, h)

Applies-kept :
    (code : Text) (on_date : Option ℕ) (rate : ExchangeRate)
    → Applies code on_date rate
    → (of_currency code rate && until on_date rate) ≡ true
Applies-kept code on_date rate (same, early) =
    ap₂ ◌&&◌ (ap (λ t. same_text t code) same ∙ same_text_refl code) (until-true on_date rate early)

newer-IsPreferred :
    (code : Text) (on_date : Option ℕ) (rate other : ExchangeRate)
    → ((of_currency code other && until on_date other) ≡ false) ⊎ (newer rate other ≡ true)
    → IsPreferred code on_date rate other
newer-IsPreferred code on_date rate other (inl refused) =
    inl (λ a. cc (refused, Applies-kept code on_date other a))
newer-IsPreferred code on_date rate other (inr e) =
    elim (Bool-cases (ltb other.rate_date rate.rate_date)) [
      | inl early ↦ inr (inl (ground arith))
      | inr same ↦ inr (inr (ground arith, ground arith))
    ]

All-IsPreferred :
    (code : Text) (on_date : Option ℕ) (rate : ExchangeRate) (rows : List ExchangeRate)
    → All
        (λ other.
          ((of_currency code other && until on_date other) ≡ false) ⊎ (newer rate other ≡ true))
        rows
    → All (IsPreferred code on_date rate) rows
All-IsPreferred code on_date rate [] h = tt
All-IsPreferred code on_date rate (other ∷ rows) h =
    (newer-IsPreferred code on_date rate other h.0, All-IsPreferred code on_date rate rows h.1)

-- Where latest_rate succeeds for a currency that is not the base currency, the rate is that of a
-- stored rate of this currency until the date, and every other stored rate is of another currency
-- or after the date, or of an earlier date, or of the same date with no higher key.
pub latest_rate_newest :
    (s : Rates) (code : Text) (on_date : Option ℕ) (currency : Currency) (db : Db) (r : ℤ × Rates)
    → get_currency s.db code ≡ ok (currency, db)
    → currency.is_base ≡ false
    → latest_rate s code on_date ≡ ok r
    → (rate : ExchangeRate) × (r.0 ≡ rate.rate_to_base)
      × Among rate s.exchange_rates
      × Applies currency.code on_date rate
      × All (IsPreferred currency.code on_date rate) s.exchange_rates
unfolding latest_rate
latest_rate_newest s code on_date currency db r found foreign h =
    let keep : ExchangeRate → Bool = λ rate. of_currency currency.code rate && until on_date rate in
    let rows = candidates s currency.code on_date in
    let (rate, e, h') =
      >>=-eq-ok (or_raise (first (sort newer rows)) 404 "Exchange rate not found") _
        (rw (found, foreign) at h) in
    let newest = first-sort newer newer_total newer_trans rows rate (or_raise-eq-ok _ 404 _ e) in
    let stored = Among-filter keep rate s.exchange_rates newest.0 in
    (
      rate,
      ap (λ (p : ℤ × Rates). p.0) (sym (ok-injective h')),
      stored.0,
      kept-Applies currency.code on_date rate stored.1,
      All-IsPreferred currency.code on_date rate s.exchange_rates
          (kept-All (λ other. newer rate other ≡ true) keep s.exchange_rates newest.1),
    )

-- Every stored rate is above zero.
abbrev pub AllPositive : List ExchangeRate → Type 0
AllPositive rates = All (λ (rate : ExchangeRate). leb_ℤ rate.rate_to_base (pos 0) ≡ false) rates

-- A successful create_exchange_rate stores one rate more, with the date and the rate of the request,
-- and leaves every rate above zero.
pub create_exchange_rate-AllPositive :
    (s : Rates) (payload : ExchangeRateCreate) (r : ExchangeRate × Rates)
    → create_exchange_rate s payload ≡ ok r
    → AllPositive s.exchange_rates
    → (r.1.exchange_rates ≡ s.exchange_rates ++ r.0 ∷ [])
      × (r.0.rate_date ≡ payload.rate_date)
      × (r.0.rate_to_base ≡ payload.rate_to_base)
      × AllPositive r.1.exchange_rates
unfolding create_exchange_rate
create_exchange_rate-AllPositive s payload r h positive =
    let (found, e0, h0) = >>=-eq-ok (get_currency s.db payload.currency_code) _ h in
    let (e1, h1) =
      >>-eq-ok
        (raise_if (found.0.is_base && not (eqb_ℤ payload.rate_to_base one_rate)) 422
          "Base currency rate must be 1")
        _ h0 in
    let (e2, h2) =
      >>-eq-ok
        (raise_if (leb_ℤ payload.rate_to_base (pos 0)) 422
          "Exchange rate must be greater than zero")
        _ h1 in
    let above = raise_if-eq-ok _ 422 "Exchange rate must be greater than zero" e2 in
    let rate = new_rate payload found.0 found.1.next_id in
    subst
      (λ (w : ExchangeRate × Rates).
        (w.1.exchange_rates ≡ s.exchange_rates ++ w.0 ∷ [])
        × (w.0.rate_date ≡ payload.rate_date)
        × (w.0.rate_to_base ≡ payload.rate_to_base)
        × AllPositive w.1.exchange_rates)
      (ok-injective h2)
      (refl, refl, refl, All-append _ s.exchange_rates (rate ∷ []) positive (above, tt))

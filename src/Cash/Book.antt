-- ===== src/Cash/Book.antt =====
-- The cash book of cash_service.py and its pages.
use faethon_system.Base.{
  ℕ, ℤ, pos, ◌+ℤ◌, ◌-ℤ◌, int_laws, +ℤ-zero, zero-+ℤ, +ℤ_assoc, Bool, ◌&&◌, ◌||◌, ltb, leb, ◌==◌,
  if◌then◌else◌, List, [], ◌∷◌, ◌++◌, length, take, drop, reverse, ◌≡◌, refl, sym, ap, ap₂, ◌∙◌,
  zero, suc,
}
use faethon_system.Base.Sort.{sort, total_where, total_where-sort, total_where-append}
use faethon_system.Models.{Db, CashOperation}
use faethon_system.Cash.{balance_effect, before, order_id, cash_balance_scalar, get_cash_balance}
use faethon_system.Cash.Create.{everything, get_cash_balance-eq-total_where}

-- `CashBookRow`: the operation and the balance after it
abbrev pub BookRow : Type 0
BookRow = CashOperation × ℤ

-- the loop of `get_cash_book`
unfoldable pub book_rows : ℤ → List CashOperation → List BookRow
book_rows balance [] = []
book_rows balance (o ∷ os) =
    (o, balance +ℤ balance_effect o) ∷ book_rows (balance +ℤ balance_effect o) os

unfoldable pub get_cash_book : Db → List BookRow
get_cash_book db = book_rows (pos 0) (sort before db.cash_operations)

-- the order by date and key, both descending: the keys are unique, so that it is the reverse of
-- the ascending order
unfoldable pub newest_first : Db → List CashOperation
newest_first db = reverse (sort before db.cash_operations)

-- `CashBookPage`, whose `offset` and `limit` repeat the request
pub record CashBookPage : Type 0 where
  pub items : List BookRow
  pub total : ℕ
  pub current_balance : ℤ
  pub page_opening_balance : ℤ
  pub page_closing_balance : ℤ

-- the loop of `get_cash_book_page`: its rows, and the balance before them
unfoldable pub page_rows : ℤ → List CashOperation → List BookRow × ℤ
page_rows running [] = ([], running)
page_rows running (o ∷ os) =
    let rest = page_rows (running -ℤ balance_effect o) os in ((o, running) ∷ rest.0, rest.1)

-- the filter of the closing balance: up to the newest operation of the page
abbrev pub up_to : CashOperation → CashOperation → Bool
up_to newest o =
    ltb o.operation_date newest.operation_date
    || (o.operation_date == newest.operation_date && leb (order_id o) (order_id newest))

abbrev pub closing_balance : Db → ℕ → CashOperation → ℤ
closing_balance db offset newest =
    if offset == 0
    then get_cash_balance db
    else cash_balance_scalar db.cash_operations (up_to newest)

abbrev pub page_of : Db → ℕ → List CashOperation → CashBookPage
page_of db offset [] = record {
  items = [];
  total = length db.cash_operations;
  current_balance = get_cash_balance db;
  page_opening_balance = get_cash_balance db;
  page_closing_balance = get_cash_balance db;
}
page_of db offset (newest ∷ older) =
    let closing = closing_balance db offset newest in
    let rows = page_rows closing (newest ∷ older) in
    record {
      items = rows.0;
      total = length db.cash_operations;
      current_balance = get_cash_balance db;
      page_opening_balance = rows.1;
      page_closing_balance = closing;
    }

unfoldable pub get_cash_book_page : Db → ℕ → ℕ → CashBookPage
get_cash_book_page db offset limit = page_of db offset (take limit (drop offset (newest_first db)))

abbrev total : List CashOperation → ℤ
total os = total_where balance_effect everything os

swap : (a b : ℤ) → a +ℤ (b +ℤ pos 0) ≡ b +ℤ a
swap a b = omega int_laws

minus_zero : (b : ℤ) → b ≡ b -ℤ pos 0
minus_zero b = omega int_laws

minus_twice : (b e t : ℤ) → b -ℤ e -ℤ t ≡ b -ℤ (e +ℤ t)
minus_twice b e t = omega int_laws

take_last : (s e t : ℤ) → s +ℤ (e +ℤ t) -ℤ t ≡ s +ℤ e
take_last s e t = omega int_laws

total-reverse : (os : List CashOperation) → total (reverse os) ≡ total os
total-reverse [] = refl
total-reverse (o ∷ os) =
    total_where-append balance_effect everything (reverse os) (o ∷ [])
    ∙ ap (λ t. t +ℤ (balance_effect o +ℤ pos 0)) (total-reverse os)
    ∙ swap (total os) (balance_effect o)

page_rows-append :
    (b : ℤ) (os : List CashOperation) (o : CashOperation)
    → (page_rows b (os ++ o ∷ [])).0 ≡ (page_rows b os).0 ++ (o, b -ℤ total os) ∷ []
unfolding page_rows
page_rows-append b [] o = ap (λ x. (o, x) ∷ []) (minus_zero b)
page_rows-append b (p ∷ os) o =
    ap (λ rest. (p, b) ∷ rest)
      (page_rows-append (b -ℤ balance_effect p) os o
        ∙ ap (λ x. (page_rows (b -ℤ balance_effect p) os).0 ++ (o, x) ∷ [])
            (minus_twice b (balance_effect p) (total os)))

-- Going down from the last balance gives the rows of the book, newest first.
page_rows-reverse :
    (start : ℤ) (os : List CashOperation)
    → (page_rows (start +ℤ total os) (reverse os)).0 ≡ reverse (book_rows start os)
unfolding page_rows book_rows
page_rows-reverse start [] = refl
page_rows-reverse start (o ∷ os) =
    let e = balance_effect o in
    let b = start +ℤ (e +ℤ total os) in
    page_rows-append b (reverse os) o
    ∙ ap₂ (λ rows x. rows ++ (o, x) ∷ [])
        (ap (λ x. (page_rows x (reverse os)).0) (sym (+ℤ_assoc start e (total os)))
          ∙ page_rows-reverse (start +ℤ e) os)
        (ap (λ t. b -ℤ t) (total-reverse os) ∙ take_last start e (total os))

page_rows-take :
    (n : ℕ) (b : ℤ) (os : List CashOperation)
    → (page_rows b (take n os)).0 ≡ take n (page_rows b os).0
unfolding page_rows
page_rows-take zero b os = refl
page_rows-take (suc n) b [] = refl
page_rows-take (suc n) b (o ∷ os) =
    ap (λ rest. (o, b) ∷ rest) (page_rows-take n (b -ℤ balance_effect o) os)

items-page_of :
    (db : Db) (os : List CashOperation)
    → (page_of db 0 os).items ≡ (page_rows (get_cash_balance db) os).0
unfolding page_rows
items-page_of db [] = refl
items-page_of db (o ∷ os) = refl

-- The first page of the cash book has the newest rows of the whole book, with the same
-- balances.
pub get_cash_book_page-eq-take :
    (db : Db) (limit : ℕ)
    → (get_cash_book_page db 0 limit).items ≡ take limit (reverse (get_cash_book db))
unfolding get_cash_book_page get_cash_book newest_first
get_cash_book_page-eq-take db limit =
    let sorted = sort before db.cash_operations in
    let whole =
      get_cash_balance-eq-total_where db
      ∙ sym (total_where-sort balance_effect everything before db.cash_operations) in
    items-page_of db (take limit (reverse sorted))
    ∙ page_rows-take limit (get_cash_balance db) (reverse sorted)
    ∙ ap (λ x. take limit (page_rows x (reverse sorted)).0) (whole ∙ sym (zero-+ℤ (total sorted)))
    ∙ ap (take limit) (page_rows-reverse (pos 0) sorted)

-- the balance after the last row
abbrev pub last_balance : ℤ → List BookRow → ℤ
last_balance start [] = start
last_balance start ((_, balance) ∷ rows) = last_balance balance rows

last_balance-book_rows :
    (start : ℤ) (os : List CashOperation)
    → last_balance start (book_rows start os) ≡ start +ℤ total os
unfolding book_rows
last_balance-book_rows start [] = sym (+ℤ-zero start)
last_balance-book_rows start (o ∷ os) =
    last_balance-book_rows (start +ℤ balance_effect o) os
    ∙ +ℤ_assoc start (balance_effect o) (total os)

-- The last balance of the cash book is the cash balance.
pub get_cash_book-balance :
    (db : Db) → last_balance (pos 0) (get_cash_book db) ≡ get_cash_balance db
unfolding get_cash_book
get_cash_book-balance db =
    last_balance-book_rows (pos 0) (sort before db.cash_operations)
    ∙ zero-+ℤ _
    ∙ total_where-sort balance_effect everything before db.cash_operations
    ∙ sym (get_cash_balance-eq-total_where db)

-- ===== src/Logistics/Confirmation.antt =====
-- What `confirm_task` records: one status per line, and the task's status from them.
use faethon_system.Base.{
  ℤ, eqb_ℤ, Bool, true, false, not, ◌&&◌, ◌||◌, all, Option, none, some, List, [], ◌∷◌, ok, err,
  crash, >>=-eq-ok, ok-injective, ◌≡◌, refl, subst, Text, arith,
}
use faethon_system.Models.{WarehouseTaskLine, LineStatus, confirmed}
use faethon_system.Logistics.{Values, lookup_value, confirm_line, record_lines}

abbrev pub is_confirmed : LineStatus → Bool
is_confirmed confirmed = true
is_confirmed _ = false

abbrev pub line_confirmed : WarehouseTaskLine → Bool
line_confirmed l = is_confirmed l.status

line_status :
    (actual : ℤ) (comment : Option Text) (l : WarehouseTaskLine)
    → line_confirmed (confirm_line actual comment l) ≡ eqb_ℤ actual l.expected_quantity
unfolding confirm_line
line_status actual comment l = ground arith

not_both : (a b c : Bool) → b ≡ not c → (not a || b) ≡ not (a && c)
not_both a b c h = ground arith

-- The flag of a discrepancy is raised where a line is not confirmed.
pub record_lines-flag :
    (values : Values) (ls : List WarehouseTaskLine) (r : List WarehouseTaskLine × Bool)
    → record_lines values ls ≡ ok r
    → r.1 ≡ not (all line_confirmed r.0)
unfolding record_lines
record_lines-flag values [] r h =
    subst (λ (r : List WarehouseTaskLine × Bool). r.1 ≡ not (all line_confirmed r.0))
      (ok-injective h) refl
record_lines-flag values (l ∷ ls) r h =
    let (v, e0, h0) =
      >>=-eq-ok (elim (lookup_value l.id values) [ none ↦ err (crash "KeyError") | some v ↦ ok v ])
        _ h in
    let (rest, e1, h1) = >>=-eq-ok (record_lines values ls) _ h0 in
    subst (λ (r : List WarehouseTaskLine × Bool). r.1 ≡ not (all line_confirmed r.0))
      (ok-injective h1)
      (rw (line_status v.0 v.1 l) (
        not_both (eqb_ℤ v.0 l.expected_quantity) rest.1 (all line_confirmed rest.0)
          (record_lines-flag values ls rest e1)))

-- ===== src/E2db/Matcher.antt =====
-- pkg/e2db/q/matcher.go: the matchers with which a query filters its rows.
mod Tests
use e2d.E2db.Values.{Value, deep_equal}
use e2d.E2db.Model.{Field, field_by_name}
use e2d.Prelude.{
  bool_eq, ◌-◌, ◌≡◌, refl, ◌↔◌, Bool, true, false, not, none, some, List, arith, if◌then◌else◌,
  Text, codes, other, Result, ok, err, panic,
}

mutual
  pub data Matcher : Type 0 where
    field_eq : Text → Value → Matcher
    all_of any_of none_of : Matchers → Matcher

  pub data Matchers : Type 0 where
    end : Matchers
    more : Matcher → Matchers → Matchers

-- `fieldEq.Match`
match_field : Text → Value → List Field → Result Bool
match_field name v row = elim (field_by_name name row) [
  | none ↦ err (other (codes "invalid field"))
  | some f ↦ ok (deep_equal v f.value)
]

-- What a loop over matchers does with the answer of one of them: it goes on while the answer is
-- `expected`, and returns `stopped` at the first that is not.
go_on_while : Bool → Bool → Result Bool → Result Bool → Result Bool
go_on_while expected stopped (ok b) rest = if bool_eq b expected then rest else ok stopped
go_on_while expected stopped (err e) rest = err e
go_on_while expected stopped panic rest = panic

unfoldable mutual
  unfolding match_field go_on_while

  pub match_row : Matcher → List Field → Result Bool
  match_row (field_eq name v) row = match_field name v row
  match_row (all_of ms) row = match_all ms row
  match_row (any_of ms) row = match_any ms row
  match_row (none_of ms) row = match_none ms row

  -- `and.Match`
  pub match_all : Matchers → List Field → Result Bool
  match_all end row = ok true
  match_all (more m ms) row = go_on_while true false (match_row m row) (match_all ms row)

  -- `or.Match`
  pub match_any : Matchers → List Field → Result Bool
  match_any end row = ok false
  match_any (more m ms) row = go_on_while false true (match_row m row) (match_any ms row)

  -- `not.Match`
  pub match_none : Matchers → List Field → Result Bool
  match_none end row = ok true
  match_none (more m ms) row = go_on_while false false (match_row m row) (match_none ms row)

abbrev pub negated : Result Bool → Result Bool
negated (ok b) = ok (not b)
negated (err e) = err e
negated panic = panic

negated-go_on :
    (r rest rest' : Result Bool)
    → rest' ≡ negated rest
    → go_on_while false false r rest' ≡ negated (go_on_while false true r rest)
unfolding go_on_while
negated-go_on r rest rest' h = ground arith

-- Not is the negation of Or, and it fails where Or fails, with the same error.
pub match_none-match_any :
    (ms : Matchers) (row : List Field)
    → match_row (none_of ms) row ≡ negated (match_row (any_of ms) row)
unfolding match_row match_none match_any
match_none-match_any end row = refl
match_none-match_any (more m ms) row =
    negated-go_on (match_row m row) (match_any ms row) (match_none ms row)
      (match_none-match_any ms row)

-- The matchers all of which answer, on a row, and the row passes.
abbrev pub AllMatch : Matchers → List Field → Type 0
AllMatch end row = Unit
AllMatch (more m ms) row = (match_row m row ≡ ok true) × AllMatch ms row

-- And holds of a row exactly if each of its matchers holds of it.
pub match_all_iff :
    (ms : Matchers) (row : List Field) → (match_row (all_of ms) row ≡ ok true) ↔ AllMatch ms row
unfolding match_row match_all
match_all_iff ms row = (to_each ms, of_each ms)
  where
    stops :
        (r rest : Result Bool)
        → go_on_while true false r rest ≡ ok true
        → (r ≡ ok true) × (rest ≡ ok true)
    stops r rest h = ground arith

    to_each : (ns : Matchers) → match_all ns row ≡ ok true → AllMatch ns row
    to_each end h = tt
    to_each (more n ns) h =
        let p = stops (match_row n row) (match_all ns row) h in (p.0, to_each ns p.1)

    of_each : (ns : Matchers) → AllMatch ns row → match_all ns row ≡ ok true
    of_each end h = refl
    of_each (more n ns) h = ground (arith, of_each ns h.1, h.0)

-- ===== src/Output/Summary/Top.antt =====
-- internal/output/summary.go: the entries that writeTopN shows.
use Prim.Native.Nat.{min}
use mathlib.Core.HLevel.{hedberg}
use mathlib.Core.List.{Nodup, Perm}
use native.Mathlib.Decide.{ℕ_discrete}
use amqp_routing_inspector.Base.{
  ◌⊎◌, not, ◌==◌, inl, inr, Bool-cases, beq_of_eq, beq_of_ne, eq_of_beq, ℕ, zero, suc, true, ◌≢◌,
  List, [], ◌∷◌, ◌++◌, ◌≡◌, sym, ap, ◌∙◌, list_eq, nat_eq, take, drop, length, length-take,
  take-append-drop, All, if◌then◌else◌,
}
use amqp_routing_inspector.Base.Int.{ℤ, int_eq, ltb_ℤ, ltb_ℤ_irrefl, ltb_ℤ_trans, ltb_ℤ_connected}
use amqp_routing_inspector.Base.Decimal.{signed}
use amqp_routing_inspector.Base.Text.{Text, text_ltb}
use amqp_routing_inspector.Base.Text.Less.{text_ltb-IsStrictOrder, text_ltb_connected}
use amqp_routing_inspector.Base.Order.{
  by_key-IsStrictOrder, IsStrictOrder, IsAscending, Comparable, sort, sort_perm_eq,
  sort-IsAscending, sort-perm, length-sort, Nodup-AllComparable,
}
use amqp_routing_inspector.Base.Map.{keys}
use amqp_routing_inspector.Output.Summary.{CountEntry, entry_less, top_entries}

CountEntry-discrete : Discrete CountEntry
CountEntry-discrete = hlevel ℕ_discrete

name_less-IsStrictOrder : IsStrictOrder {A = CountEntry} (λ a b. text_ltb a.0 b.0)
name_less-IsStrictOrder = record {
  irrefl = λ a. text_ltb-IsStrictOrder.irrefl a.0;
  trans = λ a b c. text_ltb-IsStrictOrder.trans a.0 b.0 c.0;
}

more-IsStrictOrder : IsStrictOrder (λ a b. ltb_ℤ b a)
more-IsStrictOrder = record { irrefl = ltb_ℤ_irrefl; trans = λ a b c p q. ltb_ℤ_trans c b a q p }

entry_less-IsStrictOrder : IsStrictOrder entry_less
unfolding entry_less
entry_less-IsStrictOrder =
    by_key-IsStrictOrder (λ e. signed e.1) _ _ more-IsStrictOrder name_less-IsStrictOrder

apart :
    (x y : ℤ) (s t : Text)
    → s ≢ t
    → ((if not (x == y) then ltb_ℤ y x else text_ltb s t) ≡ true)
      ⊎ ((if not (y == x) then ltb_ℤ x y else text_ltb t s) ≡ true)
apart x y s t h = elim (Bool-cases (x == y)) [
  | inl q ↦ rw (q, beq_of_eq y x (sym (eq_of_beq x y q))) (text_ltb_connected s t h)
  | inr q ↦
      let n : y ≢ x = λ e. cc (q, beq_of_eq x y (sym e)) in
      rw (q, beq_of_ne y x n) (ltb_ℤ_connected y x n)
]

entry_less_connected : (a b : CountEntry) → a.0 ≢ b.0 → Comparable entry_less a b
unfolding entry_less
entry_less_connected a b h = apart (signed a.1) (signed b.1) a.0 b.0 h

-- Each element of the first list is below each of the second.
abbrev pub AllBelow : List CountEntry → List CountEntry → Type 0
AllBelow [] ys = Unit
AllBelow (x ∷ xs) ys = All (λ y. entry_less x y ≡ true) ys × AllBelow xs ys

All-drop : (P : CountEntry → Type 0) (n : ℕ) (xs : List CountEntry) → All P xs → All P (drop n xs)
All-drop P zero xs h = h
All-drop P (suc n) [] h = tt
All-drop P (suc n) (x ∷ xs) h = All-drop P n xs h.1

All-take : (P : CountEntry → Type 0) (n : ℕ) (xs : List CountEntry) → All P xs → All P (take n xs)
All-take P zero xs h = tt
All-take P (suc n) [] h = tt
All-take P (suc n) (x ∷ xs) h = (h.0, All-take P n xs h.1)

cut-IsAscending :
    (n : ℕ) (xs : List CountEntry)
    → IsAscending entry_less xs
    → IsAscending entry_less (take n xs) × AllBelow (take n xs) (drop n xs)
cut-IsAscending zero xs h = (tt, tt)
cut-IsAscending (suc n) [] h = (tt, tt)
cut-IsAscending (suc n) (x ∷ xs) h =
    let (a, b) = cut-IsAscending n xs h.1 in ((All-take _ n xs h.0, a), (All-drop _ n xs h.0, b))

-- writeTopN shows the entries of a map with unique names that stand first by count, larger counts
-- first, then by name: it shows as many as are asked for or as there are, in strictly ascending
-- order, and with the entries left out, which all come after each that is shown, they are the map's.
-- The order in which Go walks the map does not matter.
pub top_entries_lem :
    (counts walked : List (Text × ℕ)) (n : ℕ)
    → Nodup (keys counts)
    → Perm counts walked
    → (left_out : List CountEntry) × IsAscending entry_less (top_entries counts n)
      × AllBelow (top_entries counts n) left_out
      × Perm (top_entries counts n ++ left_out) counts
      × (length (top_entries counts n) ≡ min n (length counts))
      × (top_entries walked n ≡ top_entries counts n)
unfolding top_entries
top_entries_lem counts walked n once p =
    let sorted = sort entry_less counts in
    let (shown, rest) = cut-IsAscending n sorted (
      sort-IsAscending entry_less-IsStrictOrder counts (
        Nodup-AllComparable entry_less-IsStrictOrder (λ e. e.0) (hedberg CountEntry-discrete)
          entry_less_connected counts once)) in
    (
      drop n sorted,
      shown,
      rest,
      rw (take-append-drop n sorted) (sort-perm entry_less counts),
      length-take n sorted ∙ ap (min n) (length-sort entry_less counts),
      ap (take n) (
          sym (
            sort_perm_eq entry_less-IsStrictOrder (λ e. e.0) (hedberg CountEntry-discrete)
              entry_less_connected counts walked p once)),
    )

-- ===== src/Base/Tally.antt =====
-- Maps of counters, `m[k]++`, and how often each key was counted.
use mathlib.Core.List.{Nodup}
use mathlib.Core.Bool.{true}
use amqp_routing_inspector.Base.Tests.{Key, ◌==◌, if◌then◌else◌, Bool-cases}
use amqp_routing_inspector.Base.Map.{
  lookup, update, lookup-update, or_default, keys, keys-update-Nodup,
}
use amqp_routing_inspector.Base.Decimal.{increment, word}
pub mod Walk
use Prim.Native.Nat.{ℕ, ◌+◌, ◌%◌}
use mathlib.Core.Path.{◌≡◌, refl, ap, ◌∙◌}
use mathlib.Core.Logic.{inl, inr}
use mathlib.Core.List.{List, [], ◌∷◌, ◌++◌}
use native.Mathlib.Omega.{arith}

pub increment-mod : (n : ℕ) → increment (n % word) ≡ (n + 1) % word
unfolding increment
increment-mod n = omega arith

module _ {ℓ} {K : Type ℓ} ⦃e : Key K⦄ where
  -- `m[k]++`
  unfoldable pub bump : K → List (K × ℕ) → List (K × ℕ)
  unfolding update
  bump k m = update k 0 increment m

  unfoldable pub bump_all : List K → List (K × ℕ) → List (K × ℕ)
  unfolding bump
  bump_all [] m = m
  bump_all (k ∷ ks) m = bump_all ks (bump k m)

  -- `m[k]`, which is zero where the key is missing.
  unfoldable pub tally : K → List (K × ℕ) → ℕ
  unfolding lookup
  tally k m = or_default 0 (lookup k m)

  -- How often a key stands in a list.
  abbrev pub occurrences : K → List K → ℕ
  occurrences k [] = 0
  occurrences k (j ∷ ks) = if j == k then occurrences k ks + 1 else occurrences k ks

  pub occurrences-append :
      (k : K) (xs ys : List K) → occurrences k (xs ++ ys) ≡ occurrences k xs + occurrences k ys
  occurrences-append k [] ys = omega arith
  occurrences-append k (x ∷ xs) ys = ground (arith, occurrences-append k xs ys)

  -- A key in a second map counts where it counts in the first; the map is left alone by the rest.
  tally-bump :
      (k j : K) (m : List (K × ℕ))
      → tally j (bump k m) ≡ (if k == j then increment (tally j m) else tally j m)
  unfolding tally bump
  tally-bump k j m =
      ap (or_default 0) (lookup-update k j 0 increment m)
      ∙ (elim (Bool-cases (k == j)) [ inl q ↦ rw (q, ← e_eq q) refl | inr q ↦ rw q refl ])
    where
      e_eq : (k == j) ≡ true → k ≡ j
      e_eq q = (e.same_iff k j).0 q

  tally-bump_all :
      (j : K) (ks : List K) (m : List (K × ℕ)) (n : ℕ)
      → tally j m ≡ n % word
      → tally j (bump_all ks m) ≡ (n + occurrences j ks) % word
  unfolding bump_all
  tally-bump_all j [] m n h = h ∙ ap (λ (i : ℕ). i % word) (omega arith)
  tally-bump_all j (k ∷ ks) m n h = elim (Bool-cases (k == j)) [
    | inl q ↦ rw q (
        tally-bump_all j ks (bump k m) (n + 1) (tally-bump k j m ∙ rw (q, h) (increment-mod n))
        ∙ ap (λ (i : ℕ). i % word) (omega arith))
    | inr q ↦ rw q (tally-bump_all j ks (bump k m) n (tally-bump k j m ∙ rw q h))
  ]

  pub bump_all-append :
      (xs ys : List K) (m : List (K × ℕ)) → bump_all (xs ++ ys) m ≡ bump_all ys (bump_all xs m)
  unfolding bump_all
  bump_all-append [] ys m = refl
  bump_all-append (x ∷ xs) ys m = bump_all-append xs ys (bump x m)

  -- No key is entered twice.
  pub keys-bump_all-Nodup :
      (ks : List K) (m : List (K × ℕ)) → Nodup (keys m) → Nodup (keys (bump_all ks m))
  unfolding bump_all bump
  keys-bump_all-Nodup [] m h = h
  keys-bump_all-Nodup (k ∷ ks) m h =
      keys-bump_all-Nodup ks (bump k m) (keys-update-Nodup k 0 increment m h)

  tally-nil : (k : K) → tally k [] ≡ 0 % word
  unfolding tally lookup
  tally-nil k = refl

  -- From the empty map on, a count is the number of times its key was counted.
  pub tally-counted : (k : K) (ks : List K) → tally k (bump_all ks []) ≡ occurrences k ks % word
  tally-counted k ks =
      tally-bump_all k ks [] 0 (tally-nil k) ∙ ap (λ (i : ℕ). i % word) (omega arith)

-- ===== src/Base/Map.antt =====
-- Go maps, as association lists with each key once. The order of the list stands for the order in
-- which Go walks the map, which the language leaves open.
use mathlib.Core.Path.{◌≡◌, refl, sym}
use mathlib.Core.Logic.{◌≢◌, inl, inr}
use mathlib.Core.Logic.Or
use mathlib.Core.Bool.{Bool, true, false, ◌||◌}
use mathlib.Core.Option.{Option, none, some}
use mathlib.Core.List.{
  List, [], ◌∷◌, map, Mem, Nodup, Nodup-cons, Nodup-nil, Mem-prop, mem-cons, not-mem-nil,
}
use native.Mathlib.Omega.{arith}
use amqp_routing_inspector.Base.Lists.{All}
use amqp_routing_inspector.Base.Tests.{Key, ◌==◌, if◌then◌else◌, Bool-cases, eq_of_beq, beq_of_eq}

abbrev pub or_default {ℓ} : {V : Type ℓ} → V → Option V → V
or_default d none = d
or_default d (some v) = v

module _ {ℓ κ} {K : Type ℓ} {V : Type κ} ⦃e : Key K⦄ where
  unfoldable pub lookup : K → List (K × V) → Option V
  lookup k [] = none
  lookup k ((j, v) ∷ m) = if j == k then some v else lookup k m

  -- `v, ok := m[k]; if !ok { v = d }; m[k] = f(v)`
  unfoldable pub update : K → V → (V → V) → List (K × V) → List (K × V)
  update k d f [] = (k, f d) ∷ []
  update k d f ((j, v) ∷ m) = if j == k then (j, f v) ∷ m else (j, v) ∷ update k d f m

  abbrev pub keys : List (K × V) → List K
  keys = map (λ p. p.0)

  pub lookup-update :
      (k j : K) (d : V) (f : V → V) (m : List (K × V))
      → lookup j (update k d f m)
        ≡ (if k == j then some (f (or_default d (lookup k m))) else lookup j m)
  unfolding lookup update
  lookup-update k j d f [] = refl
  lookup-update k j d f ((i, v) ∷ m) =
      ground (arith, e.same_iff k j, e.same_iff i k, e.same_iff i j, lookup-update k j d f m)

  -- A key of the new map is the updated one or was there before.
  mem-update :
      (k j : K) (d : V) (f : V → V) (m : List (K × V))
      → Mem j (keys (update k d f m))
      → j ≢ k
      → Mem j (keys m)
  unfolding update
  mem-update k j d f [] h n = absurd (Or.elim (λ x. absurd x) (mem-cons.0 h) n not-mem-nil)
  mem-update k j d f ((i, v) ∷ m) h n = elim (Bool-cases (i == k)) [
    | inl q ↦ rw q at h
    | inr q ↦
        Or.elim Mem-prop (mem-cons.0 (rw q at h)) (λ x. mem-cons.1 (Or.inl x))
          (λ r. mem-cons.1 (Or.inr (mem-update k j d f m r n)))
  ]

  -- No key is entered twice.
  pub keys-update-Nodup :
      (k : K) (d : V) (f : V → V) (m : List (K × V))
      → Nodup (keys m)
      → Nodup (keys (update k d f m))
  unfolding update
  keys-update-Nodup k d f [] h = Nodup-cons.1 (not-mem-nil, Nodup-nil)
  keys-update-Nodup k d f ((i, v) ∷ m) h = elim (Bool-cases (i == k)) [
    | inl q ↦ rw q h
    | inr q ↦ rw q (
        Nodup-cons.1 (
          λ r. (Nodup-cons.0 h).0 (mem-update k i d f m r (λ x. cc (q, beq_of_eq i k x))),
          keys-update-Nodup k d f m (Nodup-cons.0 h).1,
        ))
  ]

-- A map to `struct{}`, a set.
module _ {ℓ} {K : Type ℓ} ⦃e : Key K⦄ where
  unfoldable pub contains : K → List K → Bool
  contains k [] = false
  contains k (j ∷ s) = if j == k then true else contains k s

  -- `s[k] = struct{}{}`
  unfoldable pub put : K → List K → List K
  unfolding contains
  put k s = if contains k s then s else k ∷ s

  pub contains-put : (k j : K) (s : List K) → contains j (put k s) ≡ (k == j || contains j s)
  unfolding put contains
  contains-put k j s = elim (Bool-cases (contains k s)) [
    | inl q ↦
        rw q (elim (Bool-cases (k == j)) [ inl x ↦ rw (x, ← eq_of_beq k j x) q | inr x ↦ rw x ])
    | inr q ↦ rw q (ground arith)
  ]

  not-contains : (k : K) (s : List K) → contains k s ≡ false → ¬ Mem k s
  unfolding contains
  not-contains k [] h = not-mem-nil
  not-contains k (j ∷ s) h = elim (Bool-cases (j == k)) [
    | inl q ↦ absurd (ground arith)
    | inr q ↦ λ m.
        Or.elim (λ x. absurd x) (mem-cons.0 m) (λ x. cc (q, beq_of_eq j k (sym x)))
          (not-contains k s (ground arith))
  ]

  pub put-Nodup : (k : K) (s : List K) → Nodup s → Nodup (put k s)
  unfolding put
  put-Nodup k s h = elim (Bool-cases (contains k s)) [
    | inl q ↦ rw q h
    | inr q ↦ rw q (Nodup-cons.1 (not-contains k s q, h))
  ]

-- What all entries have, an update keeps.
pub All-update {ℓ κ μ} :
    {K : Type ℓ} {V : Type κ} ⦃e : Key K⦄ (P : K × V → Type μ) (k : K) (d : V) (f : V → V)
    (m : List (K × V))
    → ((j : K) (v : V) → P (j, v) → P (j, f v))
    → P (k, f d)
    → All P m
    → All P (update k d f m)
unfolding update
All-update P k d f [] keep new h = (new, tt)
All-update P k d f ((j, v) ∷ m) keep new h = elim (Bool-cases (j == k)) [
  | inl q ↦ rw q (keep j v h.0, h.1)
  | inr q ↦ rw q (h.0, All-update P k d f m keep new h.1)
]

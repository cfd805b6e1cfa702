-- ===== src/Base/Tally/Walk.antt =====
-- What a map of counters holds does not depend on the order in which it is walked.
use mathlib.Core.HLevel.{hedberg}
use mathlib.Core.Path.{◌≡◌, refl, ◌∙◌}
use mathlib.Core.Logic.{inl, inr, ◌≢◌, ∥∥₁_elim}
use mathlib.Core.Logic.Or
use mathlib.Core.List.{List, ◌∷◌, Perm, Permᴰ, Nodup, Nodup-cons, mem-cons}
use mathlib.Core.List.Perm
use native.Mathlib.Decide.{ℕ_discrete}
use native.Mathlib.Omega.{arith}
use Prim.Native.Nat.{ℕ}
use amqp_routing_inspector.Base.Tests.{Key, ◌==◌, if◌then◌else◌, Bool-cases}
use amqp_routing_inspector.Base.Map.{lookup, keys}
use amqp_routing_inspector.Base.Tally.{tally}

module _ {ℓ} {K : Type ℓ} ⦃e : Key K⦄ where
  tally-cons :
      (k : K) (a : K × ℕ) (m : List (K × ℕ))
      → tally k (a ∷ m) ≡ (if a.0 == k then a.1 else tally k m)
  unfolding tally lookup
  tally-cons k (j, v) m = elim (Bool-cases (j == k)) [ inl q ↦ rw q refl | inr q ↦ rw q refl ]

  tally_permᴰ : {m n : List (K × ℕ)} (k : K) → Permᴰ m n → Nodup (keys m) → tally k m ≡ tally k n
  tally_permᴰ k Permᴰ.nil h = refl
  tally_permᴰ k (Permᴰ.cons {a} {b} {l₁} {l₂} q d) h =
      rw (tally-cons k a l₁, tally-cons k b l₂, q, tally_permᴰ k d (Nodup-cons.0 h).1) refl
  tally_permᴰ k (Permᴰ.swap {a} {b} {a'} {b'} {l} p q) h =
      let apart : a.0 ≢ b.0 = λ x. (Nodup-cons.0 h).0 (mem-cons.1 (Or.inl x)) in
      rw
        (
          ← p,
          ← q,
          tally-cons k a (b ∷ l),
          tally-cons k b l,
          tally-cons k b (a ∷ l),
          tally-cons k a l,
        )
        (ground (arith, e.same_iff a.0 k, e.same_iff b.0 k))
  tally_permᴰ k (Permᴰ.trans d₁ d₂) h =
      tally_permᴰ k d₁ h ∙ tally_permᴰ k d₂ (Perm.nodup (Perm.map (λ p. p.0) ∣ d₁ ∣₁) h)

  -- The library's permutations are truncated; a count is a number, so nothing is lost.
  pub tally_perm : (k : K) (m n : List (K × ℕ)) → Perm m n → Nodup (keys m) → tally k m ≡ tally k n
  tally_perm k m n p h = ∥∥₁_elim p (hedberg ℕ_discrete _ _) (λ d. tally_permᴰ k d h)

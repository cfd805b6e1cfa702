-- ===== src/Base/Text/Trim.antt =====
-- strings.TrimSpace
use Prim.Native.Nat.{ℕ}
use mathlib.Core.Path.{◌≡◌, refl, sym, ap, ◌∙◌}
use mathlib.Core.Logic.{inl, inr}
use mathlib.Core.Bool.{false}
use mathlib.Core.List.{[], ◌∷◌, ◌++◌}
use amqp_routing_inspector.Base.Tests.{Bool-cases}
use amqp_routing_inspector.Base.Lists.{All}
use amqp_routing_inspector.Base.Text.{
  Text, is_space, trim_left, trim_right, push_trimmed, trim_space,
}

-- A text that does not begin with a space.
abbrev StartsClean : Text → Type 0
StartsClean [] = Unit
StartsClean (c ∷ s) = is_space c ≡ false

trim_left_clean : (s : Text) → StartsClean (trim_left s)
unfolding trim_left
trim_left_clean [] = tt
trim_left_clean (c ∷ s) = elim (Bool-cases (is_space c)) [
  | inl e ↦ rw e (trim_left_clean s)
  | inr e ↦ rw e e
]

trim_left_of_clean : (s : Text) → StartsClean s → trim_left s ≡ s
unfolding trim_left
trim_left_of_clean [] h = refl
trim_left_of_clean (c ∷ s) h = rw h

push_trimmed_clean : (c : ℕ) (r : Text) → is_space c ≡ false → push_trimmed c r ≡ c ∷ r
push_trimmed_clean c [] h = rw h
push_trimmed_clean c (d ∷ r) h = refl

trim_right_clean : (s : Text) → StartsClean s → StartsClean (trim_right s)
unfolding trim_right
trim_right_clean [] h = tt
trim_right_clean (c ∷ s) h = rw (push_trimmed_clean c (trim_right s) h) h

trim_right-push_trimmed :
    (c : ℕ) (r : Text) → trim_right r ≡ r → trim_right (push_trimmed c r) ≡ push_trimmed c r
unfolding trim_right
trim_right-push_trimmed c [] h = elim (Bool-cases (is_space c)) [ inl e ↦ rw e | inr e ↦ rw (e, e) ]
trim_right-push_trimmed c (d ∷ r) h = ap (push_trimmed c) h

trim_right_idem : (s : Text) → trim_right (trim_right s) ≡ trim_right s
unfolding trim_right
trim_right_idem [] = refl
trim_right_idem (c ∷ s) = trim_right-push_trimmed c (trim_right s) (trim_right_idem s)

-- Trimming twice is trimming once.
pub trim_space_idem : (s : Text) → trim_space (trim_space s) ≡ trim_space s
unfolding trim_space
trim_space_idem s =
    ap trim_right (trim_left_of_clean _ (trim_right_clean _ (trim_left_clean s)))
    ∙ trim_right_idem (trim_left s)

pub trim_space-nil : trim_space [] ≡ []
unfolding trim_space
trim_space-nil = refl

-- What a text that is its own trimming lacks at its end.
pub trim_right_of_trimmed : (s : Text) → trim_space s ≡ s → trim_right s ≡ s
unfolding trim_space
trim_right_of_trimmed s h = ap trim_right (sym h) ∙ trim_right_idem (trim_left s) ∙ h

pub trim_right-append :
    (p s : Text) → All (λ c. is_space c ≡ false) p → trim_right (p ++ s) ≡ p ++ trim_right s
unfolding trim_right
trim_right-append [] s h = refl
trim_right-append (c ∷ p) s h =
    push_trimmed_clean c (trim_right (p ++ s)) h.0 ∙ ap (◌∷◌ c) (trim_right-append p s h.1)

-- ===== src/Base/Text/Split.antt =====
-- strings.Split and strings.Join
use Prim.Native.Nat.{ℕ}
use mathlib.Core.Path.{◌≡◌, refl, ap, ◌∙◌}
use mathlib.Core.Logic.{◌≢◌, inl, inr}
use mathlib.Core.List.{List, [], ◌∷◌, ◌++◌}
use native.Mathlib.Omega.{arith}
use amqp_routing_inspector.Base.Tests.{Bool-cases, ◌==◌, nat_eq, beq_refl, beq_of_ne}
use amqp_routing_inspector.Base.Lists.{All}
use amqp_routing_inspector.Base.Text.{Text, split, join, push_head}

-- A text in which the separator does not occur.
abbrev pub Lacks : ℕ → Text → Type 0
Lacks sep = All (λ c. c ≢ sep)

join-push_head :
    (sep c : ℕ) (ws : List Text)
    → ws ≢ []
    → join (sep ∷ []) (push_head c ws) ≡ c ∷ join (sep ∷ []) ws
unfolding join
join-push_head sep c [] h = absurd (h refl)
join-push_head sep c (w ∷ []) h = refl
join-push_head sep c (w ∷ v ∷ ws) h = refl

push_head-ne-nil : (c : ℕ) (ws : List Text) → push_head c ws ≢ []
push_head-ne-nil c [] = λ e. cc
push_head-ne-nil c (w ∷ ws) = λ e. cc

pub split-ne-nil : (sep : ℕ) (s : Text) → split sep s ≢ []
unfolding split
split-ne-nil sep [] = λ e. cc
split-ne-nil sep (c ∷ s) = elim (Bool-cases (c == sep)) [
  | inl h ↦ rw h (λ e. cc)
  | inr h ↦ rw h (push_head-ne-nil c (split sep s))
]

join-nil_cons :
    (sep : ℕ) (ws : List Text) → ws ≢ [] → join (sep ∷ []) ([] ∷ ws) ≡ sep ∷ join (sep ∷ []) ws
unfolding join
join-nil_cons sep [] h = absurd (h refl)
join-nil_cons sep (w ∷ ws) h = refl

-- Joining the parts gives the text back.
pub join-split : (sep : ℕ) (s : Text) → join (sep ∷ []) (split sep s) ≡ s
unfolding split
join-split sep [] = unfold join in refl
join-split sep (c ∷ s) = elim (Bool-cases (c == sep)) [
  | inl h ↦
      rw h (join-nil_cons sep (split sep s) (split-ne-nil sep s) ∙ ground (arith, join-split sep s))
  | inr h ↦
      rw h (join-push_head sep c (split sep s) (split-ne-nil sep s) ∙ ap (◌∷◌ c) (join-split sep s))
]

push_head-Lacks :
    (sep c : ℕ) (ws : List Text) → c ≢ sep → All (Lacks sep) ws → All (Lacks sep) (push_head c ws)
push_head-Lacks sep c [] h a = ((h, tt), tt)
push_head-Lacks sep c (w ∷ ws) h a = ((h, a.0), a.1)

-- No part holds the separator.
pub split-Lacks : (sep : ℕ) (s : Text) → All (Lacks sep) (split sep s)
unfolding split
split-Lacks sep [] = (tt, tt)
split-Lacks sep (c ∷ s) = elim (Bool-cases (c == sep)) [
  | inl h ↦ rw h (tt, split-Lacks sep s)
  | inr h ↦ rw h (push_head-Lacks sep c (split sep s) (ground arith) (split-Lacks sep s))
]

-- A part ends at the first separator.
pub split-append : (sep : ℕ) (w s : Text) → Lacks sep w → split sep (w ++ sep ∷ s) ≡ w ∷ split sep s
unfolding split
split-append sep [] s a = rw (beq_refl sep) refl
split-append sep (c ∷ w) s (h, a) = rw (beq_of_ne c sep h, split-append sep w s a) refl

-- ===== src/Base/Text/Less.antt =====
-- `<` on Go strings is a strict total order.
use mathlib.Core.Path.{◌≡◌, refl}
use mathlib.Core.Logic.{◌≢◌, ◌⊎◌, inl, inr}
use mathlib.Core.Bool.{true, false}
use mathlib.Core.List.{[], ◌∷◌}
use native.Mathlib.Omega.{arith}
use amqp_routing_inspector.Base.Text.{Text, text_ltb}
use amqp_routing_inspector.Base.Order.{IsStrictOrder}

text_ltb_irrefl : (s : Text) → text_ltb s s ≡ false
unfolding text_ltb
text_ltb_irrefl [] = refl
text_ltb_irrefl (c ∷ s) = ground (arith, text_ltb_irrefl s)

text_ltb_trans : (s t u : Text) → text_ltb s t ≡ true → text_ltb t u ≡ true → text_ltb s u ≡ true
unfolding text_ltb
text_ltb_trans s [] u p q = cc
text_ltb_trans s (d ∷ t) [] p q = cc
text_ltb_trans [] (d ∷ t) (x ∷ u) p q = refl
text_ltb_trans (c ∷ s) (d ∷ t) (x ∷ u) p q = ground (arith, text_ltb_trans s t u)

pub text_ltb-IsStrictOrder : IsStrictOrder text_ltb
text_ltb-IsStrictOrder = record { irrefl = text_ltb_irrefl; trans = text_ltb_trans }

-- Of two different texts one is the smaller.
pub text_ltb_connected : (s t : Text) → s ≢ t → (text_ltb s t ≡ true) ⊎ (text_ltb t s ≡ true)
unfolding text_ltb
text_ltb_connected [] [] h = absurd (h refl)
text_ltb_connected [] (d ∷ t) h = inl refl
text_ltb_connected (c ∷ s) [] h = inr refl
text_ltb_connected (c ∷ s) (d ∷ t) h = ground (arith, text_ltb_connected s t)

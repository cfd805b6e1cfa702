-- ===== src/Base/Text.antt =====
-- Go strings, as the list of their runes, and the functions of package strings that the program
-- calls. `is_space` is unicode.IsSpace; `lower_rune` is unicode.ToLower on U+0000 to U+00FF.
pub mod Less
pub mod Trim
pub mod Split
pub mod Quote
pub mod Utf8
use Prim.Native.Nat.{ℕ, zero, suc, ◌+◌, ◌-◌}
use Prim.Native.Char.{code}
use Prim.Native.String.{String}
use mathlib.Core.Bool.{Bool, true, false, not, ◌&&◌, ◌||◌}
use mathlib.Core.List.{List, [], ◌∷◌, ◌++◌, map, reverse}
use amqp_routing_inspector.Base.Tests.{leb, ltb, ◌==◌, nat_eq, if◌then◌else◌}
use amqp_routing_inspector.Base.Lists.{length, take, drop, is_nil}

abbrev pub Text : Type 0
Text = List ℕ

-- The bytes of a message body, or of a string that need not be UTF-8.
abbrev pub Bytes : Type 0
Bytes = List ℕ

-- The runes of a literal.
abbrev pub codes : String → Text
codes String.[] = []
codes (String.◌∷◌ rune literal) = code rune ∷ codes literal

abbrev pub dot : ℕ
dot = b'.'

unfoldable pub is_space : ℕ → Bool
is_space c =
    (leb 9 c && leb c 13)
    || c == 32
    || c == 0x85
    || c == 0xA0
    || c == 0x1680
    || (leb 0x2000 c && leb c 0x200A)
    || c == 0x2028
    || c == 0x2029
    || c == 0x202F
    || c == 0x205F
    || c == 0x3000

unfoldable pub trim_left : Text → Text
trim_left [] = []
trim_left (c ∷ s) = if is_space c then trim_left s else c ∷ s

abbrev push_trimmed : ℕ → Text → Text
push_trimmed c rest = if is_nil rest && is_space c then [] else c ∷ rest

unfoldable pub trim_right : Text → Text
trim_right [] = []
trim_right (c ∷ s) = push_trimmed c (trim_right s)

-- strings.TrimSpace
unfoldable pub trim_space : Text → Text
unfolding trim_left trim_right is_space
trim_space s = trim_right (trim_left s)

unfoldable pub lower_rune : ℕ → ℕ
lower_rune c =
    if leb b'A' c && leb c b'Z'
    then c + 32
    else if leb 0xC0 c && leb c 0xDE && not (c == 0xD7)
    then c + 32
    else c

-- strings.ToLower
unfoldable pub to_lower : Text → Text
unfolding lower_rune
to_lower s = map lower_rune s

-- strings.HasPrefix s p
unfoldable pub has_prefix : Text → Text → Bool
has_prefix s [] = true
has_prefix [] (d ∷ p) = false
has_prefix (c ∷ s) (d ∷ p) = c == d && has_prefix s p

-- strings.TrimPrefix
unfoldable pub trim_prefix : Text → Text → Text
unfolding has_prefix
trim_prefix s p = if has_prefix s p then drop (length p) s else s

-- strings.HasSuffix
unfoldable pub has_suffix : Text → Text → Bool
unfolding has_prefix
has_suffix s p = has_prefix (reverse s) (reverse p)

-- strings.TrimSuffix
unfoldable pub trim_suffix : Text → Text → Text
unfolding has_suffix
trim_suffix s p = if has_suffix s p then take (length s - length p) s else s

abbrev pub push_head : ℕ → List Text → List Text
push_head c [] = (c ∷ []) ∷ []
push_head c (w ∷ ws) = (c ∷ w) ∷ ws

-- strings.Split at a separator of one rune: never empty, and "" gives one empty part.
unfoldable pub split : ℕ → Text → List Text
split sep [] = [] ∷ []
split sep (c ∷ s) = if c == sep then [] ∷ split sep s else push_head c (split sep s)

-- strings.Join
unfoldable pub join : Text → List Text → Text
join sep [] = []
join sep (w ∷ []) = w
join sep (w ∷ v ∷ ws) = w ++ (sep ++ join sep (v ∷ ws))

-- `<` on Go strings
unfoldable pub text_ltb : Text → Text → Bool
text_ltb s [] = false
text_ltb [] (d ∷ t) = true
text_ltb (c ∷ s) (d ∷ t) = ltb c d || (c == d && text_ltb s t)

unfoldable pub spaces : ℕ → Text
spaces zero = []
spaces (suc n) = b' ' ∷ spaces n

-- %6s and the like: spaces on the left up to a width.
unfoldable pub pad_left : ℕ → Text → Text
unfolding spaces
pad_left width s = spaces (width - length s) ++ s

-- %-40s and the like.
unfoldable pub pad_right : ℕ → Text → Text
unfolding spaces
pad_right width s = s ++ spaces (width - length s)

-- ===== src/Base/Text/Quote.antt =====
-- strconv.Quote, which fmt calls for %q, on strings that are valid UTF-8.
use Prim.Native.Nat.{ℕ, zero, suc, ◌+◌, ◌-◌, ◌/◌, ◌%◌}
use mathlib.Core.Bool.{Bool, not, ◌&&◌, ◌||◌}
use mathlib.Core.List.{[], ◌∷◌}
use amqp_routing_inspector.Base.Tests.{leb, ltb, ◌==◌, nat_eq, if◌then◌else◌}
use amqp_routing_inspector.Base.Text.{Text}

abbrev pub backslash : ℕ
backslash = 92

abbrev pub quote_mark : ℕ
quote_mark = b'"'

unfoldable pub hex_digit : ℕ → ℕ
hex_digit n = if ltb n 10 then b'0' + n else b'a' + (n - 10)

-- The last `width` hexadecimal digits of `n`, before `rest`.
unfoldable pub hex : ℕ → ℕ → Text → Text
unfolding hex_digit
hex zero n rest = rest
hex (suc width) n rest = hex width (n / 16) (hex_digit (n % 16) ∷ rest)

-- strconv.IsPrint, whose table from U+0100 on is the parameter.
unfoldable pub is_print : (ℕ → Bool) → ℕ → Bool
is_print beyond c =
    if ltb c 0x100 then (leb 0x20 c && ltb c 0x7F) || (leb 0xA1 c && not (c == 0xAD)) else beyond c

-- The letter of a control rune that has one, or zero.
unfoldable pub short_escape : ℕ → ℕ
short_escape c =
    if c == 7
    then b'a'
    else if c == 8
    then b'b'
    else if c == 12
    then b'f'
    else if c == 10
    then b'n'
    else if c == 13
    then b'r'
    else if c == 9
    then b't'
    else if c == 11
    then b'v'
    else 0

-- appendEscapedRune
unfoldable pub quote_rune : (ℕ → Bool) → ℕ → Text → Text
unfolding is_print short_escape hex
quote_rune beyond c rest =
    if c == quote_mark || c == backslash
    then backslash ∷ c ∷ rest
    else if is_print beyond c
    then c ∷ rest
    else if not (short_escape c == 0)
    then backslash ∷ short_escape c ∷ rest
    else if ltb c 0x20 || c == 0x7F
    then backslash ∷ b'x' ∷ hex 2 c rest
    else if ltb c 0x10000
    then backslash ∷ b'u' ∷ hex 4 c rest
    else backslash ∷ b'U' ∷ hex 8 c rest

unfoldable pub quote_runes : (ℕ → Bool) → Text → Text → Text
unfolding quote_rune
quote_runes beyond [] rest = rest
quote_runes beyond (c ∷ s) rest = quote_rune beyond c (quote_runes beyond s rest)

-- strconv.Quote, before `rest`.
unfoldable pub quoted : (ℕ → Bool) → Text → Text → Text
unfolding quote_runes
quoted beyond s rest = quote_mark ∷ quote_runes beyond s (quote_mark ∷ rest)

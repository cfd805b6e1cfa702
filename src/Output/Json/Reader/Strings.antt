-- ===== src/Output/Json/Reader/Strings.antt =====
-- encoding/json's strings are read back.
use amqp_routing_inspector.Base.{
  ℕ, suc, ◌+◌, ◌*◌, ◌/◌, ◌%◌, ◌<◌, Bool, true, false, inl, inr, [], ◌∷◌, map, Option, none, some,
  ◌≡◌, ◌≢◌, refl, ap, ◌∙◌, arith, Bool-cases, nat_eq, ◌==◌,
}
use amqp_routing_inspector.Base.Text.{Text}
use amqp_routing_inspector.Base.Text.Quote.{hex_digit, hex, backslash, quote_mark}
use amqp_routing_inspector.Output.Json.{
  Runes, unicode_escape, json_letter, by_number, json_rune, json_runes,
}
use amqp_routing_inspector.Output.Json.Reader.{
  unhex, unescape, in_text, in_number, push, read_string,
}

-- What is read of a rune: U+FFFD in the place of an invalid byte.
abbrev pub mended : Option ℕ → ℕ
mended none = 0xFFFD
mended (some c) = c

unhex-hex_digit : (n : ℕ) → n < 16 → unhex (hex_digit n) ≡ some n
unfolding unhex hex_digit
unhex-hex_digit n h = ground arith

read_digit :
    (more n d : ℕ) (s : Text)
    → d < 16
    → read_string (in_number (suc more) n) (hex_digit d ∷ s)
      ≡ read_string (in_number more (n * 16 + d)) s
unfolding read_string
read_digit more n d s h = rw (unhex-hex_digit d h)

read_last :
    (n d : ℕ) (s : Text)
    → d < 16
    → read_string (in_number 0 n) (hex_digit d ∷ s) ≡ push (n * 16 + d) (read_string in_text s)
unfolding read_string
read_last n d s h = rw (unhex-hex_digit d h)

read_number :
    (c : ℕ) (s : Text)
    → c < 0x10000
    → read_string (in_number 3 0) (hex 4 c s) ≡ push c (read_string in_text s)
unfolding hex
read_number c s h =
    read_digit 2 0 (c / 16 / 16 / 16 % 16) _ (omega arith)
    ∙ read_digit 1 _ (c / 16 / 16 % 16) _ (omega arith)
    ∙ read_digit 0 _ (c / 16 % 16) _ (omega arith)
    ∙ read_last _ (c % 16) s (omega arith)
    ∙ ap (λ n. push n (read_string in_text s)) (omega arith)

read_unicode_escape :
    (c : ℕ) (s : Text)
    → c < 0x10000
    → read_string in_text (unicode_escape c s) ≡ push c (read_string in_text s)
unfolding unicode_escape
read_unicode_escape c s h = unfold read_string in read_number c s h

unescape-json_letter :
    (c : ℕ) → json_letter c ≢ 0 → (unescape (json_letter c) ≡ some c) × (json_letter c ≢ b'u')
unfolding unescape json_letter
unescape-json_letter c h = ground arith

read_letter :
    (c d : ℕ) (s : Text)
    → unescape d ≡ some c
    → d ≢ b'u'
    → read_string in_text (backslash ∷ d ∷ s) ≡ push c (read_string in_text s)
unfolding read_string
read_letter c d s h n = ground arith

by_number-lt : (html : Bool) (c : ℕ) → by_number html c ≡ true → c < 0x10000
unfolding by_number
by_number-lt html c h = ground arith

read_plain :
    (html : Bool) (c : ℕ) (s : Text)
    → json_letter c ≡ 0
    → by_number html c ≡ false
    → read_string in_text (c ∷ s) ≡ push c (read_string in_text s)
unfolding read_string json_letter by_number
read_plain html c s h k = ground arith

read_rune :
    (html : Bool) (c : Option ℕ) (s : Text)
    → read_string in_text (json_rune html c s) ≡ push (mended c) (read_string in_text s)
unfolding json_rune
read_rune html none s = read_unicode_escape 0xFFFD s (omega arith)
read_rune html (some c) s = elim (Bool-cases (json_letter c == 0)) [
  | inl q ↦ elim (Bool-cases (by_number html c)) [
    | inl p ↦ rw (q, p) (read_unicode_escape c s (by_number-lt html c p))
    | inr p ↦ rw (q, p) (read_plain html c s (ground arith) p)
  ]
  | inr q ↦
      let (e, n) = unescape-json_letter c (ground arith) in
      rw q (read_letter c (json_letter c) s e n)
]

pub read_runes :
    (html : Bool) (s : Runes) (rest : Text)
    → read_string in_text (json_runes html s (quote_mark ∷ rest)) ≡ some (map mended s, rest)
unfolding json_runes
read_runes html [] rest = unfold read_string in refl
read_runes html (c ∷ s) rest =
    read_rune html c (json_runes html s (quote_mark ∷ rest))
    ∙ ap (push (mended c)) (read_runes html s rest)

-- ===== src/Base/Text/Utf8.antt =====
-- UTF-8: utf8.DecodeRuneInString, by which encoding/json walks a string, and the bytes of a text.
use Prim.Native.Nat.{ℕ, zero, suc, ◌+◌, ◌-◌, ◌*◌, ◌/◌, ◌%◌, ◌<◌, ◌≤◌}
use mathlib.Core.Path.{◌≡◌, refl, ap}
use mathlib.Core.Bool.{Bool, ◌&&◌, ◌||◌, not}
use mathlib.Core.Logic.{◌⊎◌, inl, inr}
use mathlib.Core.Option.{Option, none, some}
use mathlib.Core.List.{List, [], ◌∷◌, ◌++◌, map}
use native.Mathlib.Omega.{arith}
use amqp_routing_inspector.Base.Tests.{Bool-cases, leb, ltb, ◌==◌, nat_eq, if◌then◌else◌}
use amqp_routing_inspector.Base.Lists.{All}
use amqp_routing_inspector.Base.Text.{Text, Bytes}

-- The byte at a position, or zero, which continues no rune.
abbrev byte_at : ℕ → Bytes → ℕ
byte_at i [] = 0
byte_at zero (b ∷ s) = b
byte_at (suc i) (b ∷ s) = byte_at i s

abbrev within : ℕ → ℕ → ℕ → Bool
within lo hi b = leb lo b && leb b hi

abbrev continues : ℕ → Bool
continues = within 0x80 0xBF

-- The rune at the head of a string and its length in bytes, where the head is `a` and is followed by
-- the other three bytes; no rune, and one byte, where the encoding is invalid.
unfoldable pub decode_rune : ℕ → ℕ → ℕ → ℕ → Option ℕ × ℕ
decode_rune a b c d =
    if ltb a 0x80
    then (some a, 1)
    else if within 0xC2 0xDF a && continues b
    then (some ((a - 0xC0) * 64 + (b - 0x80)), 2)
    else if within 0xE0 0xEF a
        && continues b
        && (not (a == 0xE0) || leb 0xA0 b)
        && (not (a == 0xED) || leb b 0x9F)
        && continues c
    then (some ((a - 0xE0) * 4096 + ((b - 0x80) * 64 + (c - 0x80))), 3)
    else if within 0xF0 0xF4 a
        && continues b
        && (not (a == 0xF0) || leb 0x90 b)
        && (not (a == 0xF4) || leb b 0x8F)
        && continues c
        && continues d
    then (some ((a - 0xF0) * 262144 + ((b - 0x80) * 4096 + ((c - 0x80) * 64 + (d - 0x80)))), 4)
    else (none, 1)

-- The rune at the head of the bytes `a ∷ s`, with its length.
unfoldable pub first_rune : ℕ → Bytes → Option ℕ × ℕ
unfolding decode_rune
first_rune a s = decode_rune a (byte_at 0 s) (byte_at 1 s) (byte_at 2 s)

-- The bytes of a rune.
unfoldable pub encode_rune : ℕ → Bytes
encode_rune r =
    if ltb r 0x80
    then r ∷ []
    else if ltb r 0x800
    then (0xC0 + r / 64) ∷ (0x80 + r % 64) ∷ []
    else if ltb r 0x10000
    then (0xE0 + r / 4096) ∷ (0x80 + r / 64 % 64) ∷ (0x80 + r % 64) ∷ []
    else (0xF0 + r / 262144) ∷ (0x80 + r / 4096 % 64) ∷ (0x80 + r / 64 % 64) ∷ (0x80 + r % 64) ∷ []

-- The bytes of a text.
unfoldable pub encode : Text → Bytes
unfolding encode_rune
encode [] = []
encode (r ∷ s) = encode_rune r ++ encode s

-- The walk over a string of which `skip` more bytes belong to the last rune.
unfoldable pub decode_from : ℕ → Bytes → List (Option ℕ)
unfolding first_rune
decode_from skip [] = []
decode_from (suc skip) (a ∷ s) = decode_from skip s
decode_from zero (a ∷ s) = let (rune, size) = first_rune a s in rune ∷ decode_from (size - 1) s

-- The runes of a string, with nothing for a byte that is invalid.
unfoldable pub decode : Bytes → List (Option ℕ)
unfolding decode_from
decode s = decode_from 0 s

decode_test :
    decode (0x61 ∷ 0xC3 ∷ 0xA9 ∷ 0xE2 ∷ 0x82 ∷ 0xAC ∷ 0xFF ∷ 0xE2 ∷ 0x82 ∷ [])
    ≡ some 0x61 ∷ some 0xE9 ∷ some 0x20AC ∷ none ∷ none ∷ none ∷ []
unfolding decode
decode_test = refl

decode_rune-ascii : (a b c d : ℕ) → a < 0x80 → decode_rune a b c d ≡ (some a, 1)
unfolding decode_rune
decode_rune-ascii a b c d h = ground arith

decode_rune-invalid : (a b c d : ℕ) → 0xF5 ≤ a → decode_rune a b c d ≡ (none, 1)
unfolding decode_rune
decode_rune-invalid a b c d h = ground arith

-- ASCII is decoded byte by byte, whatever follows.
pub decode-ascii : (s t : Bytes) → All (λ b. b < 0x80) s → decode (s ++ t) ≡ map some s ++ decode t
unfolding decode decode_from
decode-ascii [] t a = refl
decode-ascii (b ∷ s) t (h, a) =
    rw (decode_rune-ascii b _ _ _ h) (ap (◌∷◌ (some b)) (decode-ascii s t a))

-- A byte from 0xF5 on begins no rune.
pub decode-invalid : (b : ℕ) (s : Bytes) → 0xF5 ≤ b → decode (b ∷ s) ≡ none ∷ decode s
unfolding decode decode_from
decode-invalid b s h = rw (decode_rune-invalid b _ _ _ h)

encode_test :
    encode (0x61 ∷ 0xE9 ∷ 0x20AC ∷ 0x1F600 ∷ [])
    ≡ 0x61 ∷ 0xC3 ∷ 0xA9 ∷ 0xE2 ∷ 0x82 ∷ 0xAC ∷ 0xF0 ∷ 0x9F ∷ 0x98 ∷ 0x80 ∷ []
unfolding encode
encode_test = refl

abbrev pub IsAscii : Bytes → Type 0
IsAscii = All (λ b. b < 0x80)

pub first_rune-ascii : (a : ℕ) (s : Bytes) → a < 0x80 → first_rune a s ≡ (some a, 1)
unfolding first_rune
first_rune-ascii a s h = decode_rune-ascii a (byte_at 0 s) (byte_at 1 s) (byte_at 2 s) h

encode_rune-ascii : (r : ℕ) → r < 0x80 → encode_rune r ≡ r ∷ []
unfolding encode_rune
encode_rune-ascii r h = ground arith

-- ASCII is its own encoding.
pub encode-ascii : (s : Text) → IsAscii s → encode s ≡ s
unfolding encode
encode-ascii [] a = refl
encode-ascii (r ∷ s) (h, a) = rw (encode_rune-ascii r h, encode-ascii s a) refl

-- A rune is its only byte, or it begins with a byte that is not ASCII.
pub encode_rune-cases :
    (r : ℕ)
    → ((r < 0x80) × (encode_rune r ≡ r ∷ []))
      ⊎ ((0x80 ≤ r) × ((b : ℕ) × (s : Bytes) × (0x80 ≤ b) × (encode_rune r ≡ b ∷ s)))
unfolding encode_rune
encode_rune-cases r = elim (Bool-cases (ltb r 0x80)) [
  | inl h ↦ inl (ground arith, rw h refl)
  | inr h ↦ elim (Bool-cases (ltb r 0x800)) [
    | inl k ↦ inr (ground arith, (0xC0 + r / 64, (0x80 + r % 64) ∷ [], omega arith, rw (h, k) refl))
    | inr k ↦ elim (Bool-cases (ltb r 0x10000)) [
      | inl l ↦ inr (
        ground arith,
        (
          0xE0 + r / 4096,
          (0x80 + r / 64 % 64) ∷ (0x80 + r % 64) ∷ [],
          omega arith,
          rw (h, k, l) refl,
        ),
      )
      | inr l ↦ inr (
        ground arith,
        (
          0xF0 + r / 262144,
          (0x80 + r / 4096 % 64) ∷ (0x80 + r / 64 % 64) ∷ (0x80 + r % 64) ∷ [],
          omega arith,
          rw (h, k, l) refl,
        ),
      )
    ]
  ]
]

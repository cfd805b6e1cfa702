-- ===== src/Filter/Glob/Ascii.antt =====
-- path.Match on a name in ASCII: the search over bytes is the one over runes.
use amqp_routing_inspector.Base.{
  ℕ, ◌<◌, Bool, List, [], ◌∷◌, ◌≡◌, refl, inl, inr, some, arith, Bool-cases, Option-cases, is_nil,
  nat_eq,
}
use amqp_routing_inspector.Base.Text.{Bytes}
use amqp_routing_inspector.Base.Text.Utf8.{IsAscii, first_rune-ascii, encode_rune-cases}
use amqp_routing_inspector.Filter.Glob.{
  Test, literal, any_char, class, accepts, take_bytes, take_rune, Chunk, Rest, match_chunk,
  skip_match, match_first, match_chunks,
}

take_literal-ascii :
    (x c : ℕ) (name : Bytes)
    → c < 0x80
    → take_bytes (literal x) (c ∷ name) ≡ take_rune (literal x) (c ∷ name)
unfolding take_bytes take_rune
take_literal-ascii x c name h = elim (encode_rune-cases x) [
  | inl (k, q) ↦ rw q refl
  | inr (k, (b, s, l, q)) ↦ rw q (ground arith)
]

take_bytes-ascii : (t : Test) (name : Bytes) → IsAscii name → take_bytes t name ≡ take_rune t name
unfolding take_bytes take_rune
take_bytes-ascii (literal x) [] a = elim (encode_rune-cases x) [
  | inl (k, q) ↦ rw q refl
  | inr (k, (b, s, l, q)) ↦ rw q refl
]
take_bytes-ascii any_char [] a = refl
take_bytes-ascii (class negated ranges) [] a = refl
take_bytes-ascii (literal x) (c ∷ name) a = take_literal-ascii x c name a.0
take_bytes-ascii any_char (c ∷ name) a = rw (first_rune-ascii c name a.0) (ground arith)
take_bytes-ascii (class negated ranges) (c ∷ name) a = rw (first_rune-ascii c name a.0) refl

take_rune-IsAscii :
    (t : Test) (name : Bytes) {left : Bytes}
    → IsAscii name
    → take_rune t name ≡ some left
    → IsAscii left
unfolding take_rune
take_rune-IsAscii t [] a h = cc
take_rune-IsAscii t (c ∷ name) {left} a h = elim (Bool-cases (accepts t c)) [
  | inl q ↦ let e : name ≡ left = cc (rw q at h) in rw e at a.1
  | inr q ↦ absurd (cc (rw q at h))
]

match_chunk-ascii :
    (ts : List Test) (name : Bytes)
    → IsAscii name
    → match_chunk take_bytes ts name ≡ match_chunk take_rune ts name
unfolding match_chunk
match_chunk-ascii [] name a = refl
match_chunk-ascii (t ∷ ts) name a = elim (Option-cases (take_rune t name)) [
  | inl e ↦ rw (take_bytes-ascii t name a, e) refl
  | inr (left, e) ↦
      rw (take_bytes-ascii t name a, e) (match_chunk-ascii ts left (take_rune-IsAscii t name a e))
]

match_chunk-IsAscii :
    (ts : List Test) (name : Bytes) {left : Bytes}
    → IsAscii name
    → match_chunk take_rune ts name ≡ some left
    → IsAscii left
unfolding match_chunk
match_chunk-IsAscii [] name a h = let e : name ≡ _ = cc h in rw e at a
match_chunk-IsAscii (t ∷ ts) name a h = elim (Option-cases (take_rune t name)) [
  | inl e ↦ absurd (cc (rw e at h))
  | inr (left, e) ↦ match_chunk-IsAscii ts left (take_rune-IsAscii t name a e) (rw e at h)
]

module _ (ts : List Test) (last : Bool) (next next' : Rest)
    (agree : (s : Bytes) → IsAscii s → next s ≡ next' s) where
  skip_match-ascii :
      (name : Bytes)
      → IsAscii name
      → skip_match take_bytes ts last next name ≡ skip_match take_rune ts last next' name
  unfolding skip_match
  skip_match-ascii [] a = refl
  skip_match-ascii (c ∷ name) a = elim (Option-cases (match_chunk take_rune ts name)) [
    | inl e ↦ rw (match_chunk-ascii ts name a.1, e, skip_match-ascii name a.1) refl
    | inr (left, e) ↦
        rw
          (
            match_chunk-ascii ts name a.1,
            e,
            skip_match-ascii name a.1,
            agree left (match_chunk-IsAscii ts name a.1 e),
          )
          refl
  ]

  match_first-ascii :
      (b : Bool) (name : Bytes)
      → IsAscii name
      → match_first take_bytes b ts last next name ≡ match_first take_rune b ts last next' name
  unfolding match_first
  match_first-ascii b name a = elim (Option-cases (match_chunk take_rune ts name)) [
    | inl e ↦ ground (arith, match_chunk-ascii ts name a, skip_match-ascii name a)
    | inr (left, e) ↦ ground (
      arith,
      match_chunk-ascii ts name a,
      skip_match-ascii name a,
      agree left (match_chunk-IsAscii ts name a e),
    )
  ]

pub match_chunks-ascii :
    (cs : List Chunk) (name : Bytes)
    → IsAscii name
    → match_chunks take_bytes cs name ≡ match_chunks take_rune cs name
unfolding match_chunks
match_chunks-ascii [] name a = refl
match_chunks-ascii ((starred, ts) ∷ cs) name a =
    rw
      (match_first-ascii ts (is_nil cs) (match_chunks take_bytes cs) (match_chunks take_rune cs)
        (match_chunks-ascii cs) starred name a)
      refl

-- ===== src/Filter/Glob.antt =====
-- internal/filter/matcher.go: matchGlob, and path.Match of the standard library, which it calls.
-- path.Match scans the pattern chunk by chunk; here the whole pattern is read first. That gives the
-- same answer, because an ill-formed pattern makes path.Match return ErrBadPattern for every name.
-- A pattern is read by its runes and a name by its UTF-8 bytes: a star skips bytes.
pub mod Meaning
pub mod Chunks
pub mod Ascii
pub mod Complete
pub mod Parse
use amqp_routing_inspector.Base.{
  ℕ, zero, suc, ◌+◌, Bool, true, false, not, ◌||◌, ◌&&◌, List, [], ◌∷◌, Option, none, some, leb,
  nat_eq, ◌==◌, is_nil, length, any, drop, ◌-◌, ◌>>=◌, if◌then◌else◌,
}
use amqp_routing_inspector.Base.Text.{Text, Bytes}
use amqp_routing_inspector.Base.Text.Utf8.{first_rune, encode_rune, encode}

abbrev pub slash : ℕ
slash = b'/'

abbrev pub backslash : ℕ
backslash = 92

-- A character class holds ranges, and may be negated.
pub data Test : Type 0 where
  literal : ℕ → Test
  any_char : Test
  class : Bool → List (ℕ × ℕ) → Test

pub data Piece : Type 0 where
  run : Piece
  single : Test → Piece

unfoldable pub in_range : ℕ → ℕ × ℕ → Bool
in_range c (lo, hi) = leb lo c && leb c hi

-- "?" does not take a slash; a class may.
unfoldable pub accepts : Test → ℕ → Bool
unfolding in_range
accepts (literal x) c = x == c
accepts any_char c = not (c == slash)
accepts (class negated ranges) c =
    let found = any (in_range c) ranges in if negated then not found else found

abbrev pub char_and_rest : Text → Option (ℕ × Text)
char_and_rest [] = none
char_and_rest (c ∷ []) = none
char_and_rest (c ∷ d ∷ chunk) = some (c, d ∷ chunk)

-- getEsc: one character of a class, which something must follow.
unfoldable pub get_esc : Text → Option (ℕ × Text)
get_esc [] = none
get_esc (c ∷ chunk) =
    if c == b'-' || c == b']'
    then none
    else if c == backslash
    then char_and_rest chunk
    else char_and_rest (c ∷ chunk)

-- After the lower bound: "-" begins the upper bound.
unfoldable pub get_hi : ℕ → Text → Option ((ℕ × ℕ) × Text)
unfolding get_esc
get_hi lo [] = none
get_hi lo (c ∷ chunk) =
    if c == b'-'
    then (do (hi, rest) ← get_esc chunk; some ((lo, hi), rest))
    else some ((lo, lo), c ∷ chunk)

-- The loop of a class, from after "[" or "[^". The fuel bounds the number of ranges.
unfoldable pub get_ranges : ℕ → List (ℕ × ℕ) → Text → Option (List (ℕ × ℕ) × Text)
unfolding get_esc get_hi
get_ranges zero ranges chunk = none
get_ranges (suc f) ranges chunk =
    let more = (do
      (lo, rest) ← get_esc chunk
      (range, rest') ← get_hi lo rest
      get_ranges f (range ∷ ranges) rest') in
    elim chunk [
      | [] ↦ more
      | c ∷ rest ↦ if c == b']' && not (is_nil ranges) then some (ranges, rest) else more
    ]

unfoldable pub get_class : Text → Option (Piece × Text)
unfolding get_ranges
get_class [] = none
get_class (c ∷ chunk) =
    let negated = c == b'^' in
    do
      (ranges, rest) ← get_ranges (length (c ∷ chunk)) [] (if negated then chunk else c ∷ chunk)
      some (single (class negated ranges), rest)

abbrev pub get_literal : Text → Option (Piece × Text)
get_literal [] = none
get_literal (c ∷ chunk) = some (single (literal c), chunk)

-- The piece that begins with `c`, and the text behind it.
unfoldable pub next_piece : ℕ → Text → Option (Piece × Text)
unfolding get_class
next_piece c chunk =
    if c == b'*'
    then some (run, chunk)
    else if c == b'?'
    then some (single any_char, chunk)
    else if c == b'['
    then get_class chunk
    else if c == backslash
    then get_literal chunk
    else get_literal (c ∷ chunk)

-- The pieces of a pattern; `none` is path.ErrBadPattern. The fuel bounds the number of pieces.
unfoldable pub parse : ℕ → Text → Option (List Piece)
unfolding next_piece
parse f [] = some []
parse zero (c ∷ pattern) = none
parse (suc f) (c ∷ pattern) = do
  (piece, rest) ← next_piece c pattern
  pieces ← parse f rest
  some (piece ∷ pieces)

-- A chunk: whether stars stand before it, and the tests up to the next star.
abbrev pub Chunk : Type 0
Chunk = Bool × List Test

unfoldable pub add_star : List Chunk → List Chunk
add_star [] = (true, []) ∷ []
add_star ((b, ts) ∷ cs) = (true, ts) ∷ cs

unfoldable pub add_test : Test → List Chunk → List Chunk
add_test t [] = (false, t ∷ []) ∷ []
add_test t ((false, ts) ∷ cs) = (false, t ∷ ts) ∷ cs
add_test t ((true, ts) ∷ cs) = (false, t ∷ []) ∷ (true, ts) ∷ cs

unfoldable pub chunks : List Piece → List Chunk
unfolding add_star add_test
chunks [] = []
chunks (run ∷ ps) = add_star (chunks ps)
chunks (single t ∷ ps) = add_test t (chunks ps)

-- The bytes behind a literal's.
unfoldable pub strip : Bytes → Bytes → Option Bytes
strip [] name = some name
strip (b ∷ bytes) [] = none
strip (b ∷ bytes) (c ∷ name) = if b == c then strip bytes name else none

abbrev found_rune : Option ℕ → ℕ
found_rune none = 0xFFFD
found_rune (some r) = r

-- What is left of the name's bytes behind what a test takes: a literal its own bytes, and "?" and a
-- class one rune by utf8.DecodeRuneInString, or one byte that begins no rune.
unfoldable pub take_bytes : Test → Bytes → Option Bytes
unfolding strip encode_rune accepts first_rune
take_bytes (literal x) name = strip (encode_rune x) name
take_bytes t [] = none
take_bytes any_char (c ∷ name) =
    let (rune, size) = first_rune c name in if c == slash then none else some (drop (size - 1) name)
take_bytes (class negated ranges) (c ∷ name) =
    let (rune, size) = first_rune c name in
    if accepts (class negated ranges) (found_rune rune) then some (drop (size - 1) name) else none

-- The same on a name in which each rune is one byte.
unfoldable pub take_rune : Test → Text → Option Text
unfolding accepts
take_rune t [] = none
take_rune t (c ∷ name) = if accepts t c then some name else none

abbrev pub Rest : Type 0
Rest = Text → Bool

-- What a match of the chunk is good for: the last chunk must take all of the name.
abbrev pub is_enough : Bool → Text → Bool
is_enough last left = is_nil left || not last

-- The search of path.Match, where `taken` says what a test leaves of a name.
module _ (taken : Test → Bytes → Option Bytes) where
  -- matchChunk: what is left of the name, if it begins with the chunk.
  unfoldable pub match_chunk : List Test → Bytes → Option Bytes
  match_chunk [] name = some name
  match_chunk (t ∷ ts) name = do left ← taken t name; match_chunk ts left

  -- The loop that skips bytes up to a slash, and stops at the first match that is good.
  unfoldable pub skip_match : List Test → Bool → Rest → Bytes → Bool
  unfolding match_chunk
  skip_match ts last next [] = false
  skip_match ts last next (c ∷ name) =
      let later = skip_match ts last next name in
      if c == slash then false else elim (match_chunk ts name) [
        | none ↦ later
        | some left ↦ if is_enough last left then next left else later
      ]

  unfoldable pub match_first : Bool → List Test → Bool → Rest → Bytes → Bool
  unfolding skip_match
  match_first starred ts last next name =
      let skipped = if starred then skip_match ts last next name else false in
      elim (match_chunk ts name) [
        | none ↦ skipped
        | some left ↦ if is_enough last left then next left else skipped
      ]

  unfoldable pub match_chunks : List Chunk → Bytes → Bool
  unfolding match_first
  match_chunks [] name = is_nil name
  match_chunks ((starred, ts) ∷ cs) name =
      if starred && is_nil ts
      then not (any (λ c. c == slash) name)
      else match_first starred ts (is_nil cs) (match_chunks cs) name

-- path.Match: `none` is path.ErrBadPattern. It searches the bytes of the value.
unfoldable pub path_match : Text → Text → Option Bool
unfolding parse chunks match_chunks take_bytes encode
path_match pattern name = do
  pieces ← parse (length pattern) pattern
  some (match_chunks take_bytes (chunks pieces) (encode name))

-- matchGlob
unfoldable pub match_glob : Text → Text → Option Bool
unfolding path_match
match_glob pattern value = if is_nil pattern then some true else path_match pattern value

-- ===== src/Filter/Glob/Complete.antt =====
-- The search of path.Match, where each rune is one byte, misses nothing on a name with no slash: where
-- a chunk can begin in two places, the first is as good, because the star behind the chunk takes what
-- lies between.
use amqp_routing_inspector.Base.{
  ◌↔◌, ℕ, zero, suc, Bool, true, false, List, [], ◌∷◌, ◌≡◌, refl, ◌≢◌, inl, inr, some, arith,
  Bool-cases, Option-cases, is_nil, nat_eq, length, drop, sym,
}
use amqp_routing_inspector.Base.Text.{Text}
use amqp_routing_inspector.Filter.Glob.{
  parse, match_glob, slash, Test, Piece, Chunk, chunks, match_chunk, take_rune, is_enough,
  skip_match, match_first, match_chunks, parse, match_glob,
}
use amqp_routing_inspector.Base.Text.Utf8.{IsAscii, encode-ascii}
use amqp_routing_inspector.Filter.Glob.Ascii.{match_chunks-ascii}
use amqp_routing_inspector.Filter.Glob.Meaning.{
  ChunksMatch, end, here, skip, GlobMatches, chunks_iff,
}
use amqp_routing_inspector.Filter.Glob.Chunks.{
  StarredTail, IsProper, StarredTail→IsProper, chunks-IsProper, NoSlash, NoSlash→any, is_nil→eq,
  match_chunks_sound,
}

match_chunk-drop :
    (ts : List Test) (s : Text) {left : Text}
    → match_chunk take_rune ts s ≡ some left
    → left ≡ drop (length ts) s
unfolding take_rune match_chunk
match_chunk-drop [] s h = cc
match_chunk-drop (t ∷ ts) [] h = cc
match_chunk-drop (t ∷ ts) (c ∷ s) h = match_chunk-drop ts s (ground arith)

drop-NoSlash : (n : ℕ) (s : Text) → NoSlash s → NoSlash (drop n s)
drop-NoSlash zero s h = h
drop-NoSlash (suc n) [] h = tt
drop-NoSlash (suc n) (c ∷ s) h = drop-NoSlash n s h.1

drop-nil : (n : ℕ) → drop {A = ℕ} n [] ≡ []
drop-nil zero = refl
drop-nil (suc n) = refl

-- A starred chunk may begin one character earlier.
module _ {b : Bool} {ts : List Test} {cs : List Chunk} (starred : b ≡ true) where
  widen :
      (n c : ℕ) (s : Text)
      → c ≢ slash
      → NoSlash s
      → ChunksMatch ((b, ts) ∷ cs) (drop n s)
      → ChunksMatch ((b, ts) ∷ cs) (drop n (c ∷ s))
  widen zero c s n h d = skip starred n d
  widen (suc k) c [] n h d = rw (drop-nil k) d
  widen (suc k) c (x ∷ s) n h d = widen k x s h.0 h.1 d

-- After the first place where a chunk fits, the starred rest of the pattern still matches.
rest_matches :
    {b b' : Bool} {ts ts' : List Test} {cs : List Chunk} (s : Text)
    → b' ≡ true
    → NoSlash s
    → ChunksMatch ((b, ts) ∷ (b', ts') ∷ cs) s
    → ChunksMatch ((b', ts') ∷ cs) (drop (length ts) s)
rest_matches {ts} s e h (here m d) = rw (match_chunk-drop ts s m) at d
rest_matches {ts} (c ∷ s) e h (skip e' n d) = widen e (length ts) c s n h.1 (rest_matches s e h.1 d)

enough_of_match :
    (cs : List Chunk) {left : Text} → ChunksMatch cs left → is_enough (is_nil cs) left ≡ true
enough_of_match [] end = refl
enough_of_match (k ∷ cs) {left} d = ground arith

first_good :
    {b : Bool} (ts : List Test) (cs : List Chunk) (s left : Text)
    → StarredTail cs
    → NoSlash s
    → match_chunk take_rune ts s ≡ some left
    → is_enough (is_nil cs) left ≡ true
    → ChunksMatch ((b, ts) ∷ cs) s
    → ChunksMatch cs left
first_good ts [] s left t h m q d = rw (is_nil→eq left (ground arith)) end
first_good ts ((b', ts') ∷ cs) s left t h m q d =
    rw (match_chunk-drop ts s m) (rest_matches s t.0 h d)

module _ (ts : List Test) (cs : List Chunk) (tail : StarredTail cs)
    (complete : (s : Text)
      → NoSlash s
      → ChunksMatch cs s
      → match_chunks take_rune cs s ≡ true) where
  abbrev at : Bool → Text → Bool
  at b s = match_first take_rune b ts (is_nil cs) (match_chunks take_rune cs) s

  skip_match-cons :
      (c : ℕ) (s : Text)
      → c ≢ slash
      → at true s ≡ true
      → skip_match take_rune ts (is_nil cs) (match_chunks take_rune cs) (c ∷ s) ≡ true
  unfolding skip_match match_first
  skip_match-cons c s n h = ground arith

  match_first_here :
      (b : Bool) (s left : Text)
      → match_chunk take_rune ts s ≡ some left
      → is_enough (is_nil cs) left ≡ true
      → match_chunks take_rune cs left ≡ true
      → at b s ≡ true
  unfolding match_first
  match_first_here b s left m q h = ground arith

  match_first_skip :
      (c : ℕ) (s : Text)
      → NoSlash (c ∷ s)
      → ChunksMatch ((true, ts) ∷ cs) (c ∷ s)
      → skip_match take_rune ts (is_nil cs) (match_chunks take_rune cs) (c ∷ s) ≡ true
      → at true (c ∷ s) ≡ true
  unfolding match_first
  match_first_skip c s h d later = elim (Option-cases (match_chunk take_rune ts (c ∷ s))) [
    | inl e ↦ ground arith
    | inr (left, e) ↦ elim (Bool-cases (is_enough (is_nil cs) left)) [
      | inl q ↦ match_first_here true (c ∷ s) left e q (
          complete left (rw (match_chunk-drop ts (c ∷ s) e) (drop-NoSlash (length ts) (c ∷ s) h))
            (first_good ts cs (c ∷ s) left tail h e q d))
      | inr q ↦ ground arith
    ]
  ]

  match_first_complete :
      {b : Bool} (s : Text) → NoSlash s → ChunksMatch ((b, ts) ∷ cs) s → at b s ≡ true
  match_first_complete {b} s h (here {left} m d) =
      match_first_here b s left m (enough_of_match cs d)
        (complete left (rw (match_chunk-drop ts s m) (drop-NoSlash (length ts) s h)) d)
  match_first_complete {b} (c ∷ s) h (skip e n d) =
      let before : ChunksMatch ((b, ts) ∷ cs) (c ∷ s) = skip e n d in
      let later : at b s ≡ true = match_first_complete s h.1 d in
      rw e (match_first_skip c s h (rw e at before) (skip_match-cons c s n (rw e at later)))

match_chunks_complete :
    (cs : List Chunk) (s : Text)
    → IsProper cs
    → NoSlash s
    → ChunksMatch cs s
    → match_chunks take_rune cs s ≡ true
unfolding match_chunks
match_chunks_complete [] s p h end = refl
match_chunks_complete ((true, []) ∷ cs) s p h d = rw (NoSlash→any s h)
match_chunks_complete ((true, t ∷ ts) ∷ cs) s p h d =
    match_first_complete (t ∷ ts) cs p.1
      (λ r. match_chunks_complete cs r (StarredTail→IsProper cs p.1)) s h d
match_chunks_complete ((false, ts) ∷ cs) s p h d =
    match_first_complete ts cs p.1 (λ r. match_chunks_complete cs r (StarredTail→IsProper cs p.1)) s
      h d

-- A name that this search accepts matches the pattern, for every well-formed pattern and every name.
pub path_match_sound :
    (ps : List Piece) (s : Text) → match_chunks take_rune (chunks ps) s ≡ true → GlobMatches ps s
path_match_sound ps s h =
    (chunks_iff ps s).0 (match_chunks_sound (chunks ps) s (chunks-IsProper ps) h)

-- On a name with no slash it accepts whatever matches.
pub path_match_complete :
    (ps : List Piece) (s : Text)
    → NoSlash s
    → GlobMatches ps s
    → match_chunks take_rune (chunks ps) s ≡ true
path_match_complete ps s h d =
    match_chunks_complete (chunks ps) s (chunks-IsProper ps) h ((chunks_iff ps s).1 d)

-- A well-formed pattern and a value that its pieces match, a star for any characters but slashes.
abbrev pub GlobAccepts : Text → Text → Type 0
GlobAccepts pattern value =
    (ps : List Piece) × (parse (length pattern) pattern ≡ some ps) × GlobMatches ps value

-- matchGlob on a pattern that is not empty and a value in ASCII with no slash: it returns true exactly
-- when the pattern is well-formed and the value matches its pieces.
pub match_glob_iff :
    (pattern value : Text)
    → pattern ≢ []
    → IsAscii value
    → NoSlash value
    → (match_glob pattern value ≡ some true) ↔ GlobAccepts pattern value
unfolding match_glob
match_glob_iff [] value n a h = absurd (n refl)
match_glob_iff (c ∷ pattern) value n a h =
    rw (encode-ascii value a) (elim (Option-cases (parse (length (c ∷ pattern)) (c ∷ pattern))) [
      | inl e ↦ rw e (λ m. cc, λ (qs, q, d). absurd (cc q))
      | inr (ps, e) ↦
          rw (e, match_chunks-ascii (chunks ps) value a)
            (
              λ m. (ps, refl, path_match_sound ps value (ground arith)),
              λ (qs, q, d).
                  let same : ps ≡ qs = cc q in
                  ground (arith, path_match_complete ps value h (rw (sym same) at d)),
            )
    ])

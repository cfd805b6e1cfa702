-- ===== src/Filter/Glob/Chunks.antt =====
-- path.Match on chunks: when its greedy search is right.
use amqp_routing_inspector.Base.{
  Bool, true, false, List, [], ◌∷◌, ◌≡◌, refl, ◌≢◌, ◌⊎◌, inl, inr, arith, Bool-cases, Option-cases,
  All, any, is_nil, nat_eq, ◌==◌,
}
use amqp_routing_inspector.Base.Text.{Text}
use amqp_routing_inspector.Filter.Glob.{
  slash, Test, Piece, run, single, Chunk, add_star, add_test, chunks, match_chunk, take_rune,
  is_enough, skip_match, match_first, match_chunks,
}
use amqp_routing_inspector.Filter.Glob.Meaning.{ChunksMatch, end, here, skip}

-- Every chunk but the first is starred, and only the last may be empty.
abbrev pub StarredTail : List Chunk → Type 0
StarredTail [] = Unit
StarredTail ((b, ts) ∷ cs) = (b ≡ true) × ((ts ≢ []) ⊎ (cs ≡ [])) × StarredTail cs

abbrev pub IsProper : List Chunk → Type 0
IsProper [] = Unit
IsProper ((b, ts) ∷ cs) = ((ts ≢ []) ⊎ (cs ≡ [])) × StarredTail cs

pub StarredTail→IsProper : (cs : List Chunk) → StarredTail cs → IsProper cs
StarredTail→IsProper [] h = tt
StarredTail→IsProper ((b, ts) ∷ cs) h = (h.1, h.2)

add_star-IsProper : (cs : List Chunk) → IsProper cs → IsProper (add_star cs)
unfolding add_star
add_star-IsProper [] h = (inr refl, tt)
add_star-IsProper ((b, ts) ∷ cs) h = h

add_test-IsProper : (t : Test) (cs : List Chunk) → IsProper cs → IsProper (add_test t cs)
unfolding add_test
add_test-IsProper t [] h = (inl (λ e. cc), tt)
add_test-IsProper t ((false, ts) ∷ cs) h = (inl (λ e. cc), h.1)
add_test-IsProper t ((true, ts) ∷ cs) h = (inl (λ e. cc), (refl, h.0, h.1))

pub chunks-IsProper : (ps : List Piece) → IsProper (chunks ps)
unfolding chunks
chunks-IsProper [] = tt
chunks-IsProper (run ∷ ps) = add_star-IsProper (chunks ps) (chunks-IsProper ps)
chunks-IsProper (single t ∷ ps) = add_test-IsProper t (chunks ps) (chunks-IsProper ps)

-- A name in which no slash occurs.
abbrev pub NoSlash : Text → Type 0
NoSlash = All (λ c. c ≢ slash)

any-slash : (s : Text) → any (λ c. c == slash) s ≡ false → NoSlash s
any-slash [] h = tt
any-slash (c ∷ s) h = (ground arith, any-slash s (ground arith))

pub NoSlash→any : (s : Text) → NoSlash s → any (λ c. c == slash) s ≡ false
NoSlash→any [] h = refl
NoSlash→any (c ∷ s) h = ground (arith, NoSlash→any s h.1, h.0)

trailing_star : (s : Text) → NoSlash s → ChunksMatch ((true, []) ∷ []) s
unfolding take_rune match_chunk
trailing_star [] h = here refl end
trailing_star (c ∷ s) h = skip refl h.0 (trailing_star s h.1)

pub is_nil→eq : (s : Text) → is_nil s ≡ true → s ≡ []
is_nil→eq [] h = refl
is_nil→eq (c ∷ s) h = cc

module _ (ts : List Test) (cs : List Chunk)
    (sound : (s : Text) → match_chunks take_rune cs s ≡ true → ChunksMatch cs s) where
  skip_match_sound :
      (s : Text)
      → skip_match take_rune ts (is_nil cs) (match_chunks take_rune cs) s ≡ true
      → ChunksMatch ((true, ts) ∷ cs) s
  unfolding skip_match
  skip_match_sound [] h = cc
  skip_match_sound (c ∷ s) h = elim (Option-cases (match_chunk take_rune ts s)) [
    | inl e ↦ skip refl (ground arith) (skip_match_sound s (ground arith))
    | inr (left, e) ↦ elim (Bool-cases (is_enough (is_nil cs) left)) [
      | inl q ↦ skip refl (ground arith) (here e (sound left (ground arith)))
      | inr q ↦ skip refl (ground arith) (skip_match_sound s (ground arith))
    ]
  ]

  match_first_sound :
      (b : Bool) (s : Text)
      → match_first take_rune b ts (is_nil cs) (match_chunks take_rune cs) s ≡ true
      → ChunksMatch ((b, ts) ∷ cs) s
  unfolding match_first
  match_first_sound false s h = elim (Option-cases (match_chunk take_rune ts s)) [
    | inl e ↦ absurd (ground arith)
    | inr (left, e) ↦ here e (sound left (ground arith))
  ]
  match_first_sound true s h = elim (Option-cases (match_chunk take_rune ts s)) [
    | inl e ↦ skip_match_sound s (ground arith)
    | inr (left, e) ↦ elim (Bool-cases (is_enough (is_nil cs) left)) [
      | inl q ↦ here e (sound left (ground arith))
      | inr q ↦ skip_match_sound s (ground arith)
    ]
  ]

pub match_chunks_sound :
    (cs : List Chunk) (s : Text)
    → IsProper cs
    → match_chunks take_rune cs s ≡ true
    → ChunksMatch cs s
unfolding match_chunks
match_chunks_sound [] s p h = rw (is_nil→eq s h) end
match_chunks_sound ((true, []) ∷ []) s p h = trailing_star s (any-slash s (ground arith))
match_chunks_sound ((true, []) ∷ (c ∷ cs)) s p h = absurd (elim p.0 [ inl n ↦ n refl | inr e ↦ cc ])
match_chunks_sound ((true, t ∷ ts) ∷ cs) s p h =
    match_first_sound (t ∷ ts) cs (λ r. match_chunks_sound cs r (StarredTail→IsProper cs p.1)) true
      s h
match_chunks_sound ((false, ts) ∷ cs) s p h =
    match_first_sound ts cs (λ r. match_chunks_sound cs r (StarredTail→IsProper cs p.1)) false s h

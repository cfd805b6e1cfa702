-- ===== src/Filter/Glob/Meaning.antt =====
-- What the pieces of a glob match, with no chunks and no search order in it.
use amqp_routing_inspector.Base.{
  ℕ, Bool, true, false, List, [], ◌∷◌, ◌≡◌, refl, ◌≢◌, ◌↔◌, inl, inr, some, arith, Bool-cases,
}
use amqp_routing_inspector.Base.Text.{Text}
use amqp_routing_inspector.Filter.Glob.{
  slash, Test, Piece, run, single, accepts, Chunk, add_star, add_test, chunks, match_chunk,
  take_rune,
}

-- A star stands for any characters but slashes; any other piece for one character that it accepts.
pub data GlobMatches : List Piece → Text → Type 0 where
  end : GlobMatches [] []
  one :
      {t : Test} {c : ℕ} {ps : List Piece} {s : Text}
      → accepts t c ≡ true
      → GlobMatches ps s
      → GlobMatches (single t ∷ ps) (c ∷ s)
  stop : {ps : List Piece} {s : Text} → GlobMatches ps s → GlobMatches (run ∷ ps) s
  more :
      {c : ℕ} {ps : List Piece} {s : Text}
      → c ≢ slash
      → GlobMatches (run ∷ ps) s
      → GlobMatches (run ∷ ps) (c ∷ s)

-- The same for chunks: a starred one may begin after any characters but slashes.
pub data ChunksMatch : List Chunk → Text → Type 0 where
  end : ChunksMatch [] []
  here :
      {b : Bool} {ts : List Test} {cs : List Chunk} {s left : Text}
      → match_chunk take_rune ts s ≡ some left
      → ChunksMatch cs left
      → ChunksMatch ((b, ts) ∷ cs) s
  skip :
      {b : Bool} {c : ℕ} {ts : List Test} {cs : List Chunk} {s : Text}
      → b ≡ true
      → c ≢ slash
      → ChunksMatch ((b, ts) ∷ cs) s
      → ChunksMatch ((b, ts) ∷ cs) (c ∷ s)

match_chunk-nil : (s : Text) → match_chunk take_rune [] s ≡ some s
unfolding take_rune match_chunk
match_chunk-nil s = refl

match_chunk-cons :
    (t : Test) (ts : List Test) (c : ℕ) (s left : Text)
    → accepts t c ≡ true
    → match_chunk take_rune ts s ≡ some left
    → match_chunk take_rune (t ∷ ts) (c ∷ s) ≡ some left
unfolding take_rune match_chunk
match_chunk-cons t ts c s left a h = rw a h

pub add_test_in :
    (t : Test) (cs : List Chunk) (c : ℕ) {s : Text}
    → accepts t c ≡ true
    → ChunksMatch cs s
    → ChunksMatch (add_test t cs) (c ∷ s)
unfolding add_test
add_test_in t [] c a end = here (match_chunk-cons t [] c [] [] a (match_chunk-nil [])) end
add_test_in t ((false, ts) ∷ cs) c a (here {s} {left} h d) =
    here (match_chunk-cons t ts c s left a h) d
add_test_in t ((false, ts) ∷ cs) c a (skip e n d) = cc
add_test_in t ((true, ts) ∷ cs) c {s} a d =
    here (match_chunk-cons t [] c s s a (match_chunk-nil s)) d

add_star_in : (cs : List Chunk) {s : Text} → ChunksMatch cs s → ChunksMatch (add_star cs) s
unfolding add_star
add_star_in [] end = here (match_chunk-nil []) end
add_star_in ((b, ts) ∷ cs) (here h d) = here h d
add_star_in ((b, ts) ∷ cs) (skip e n d) = skip refl n (add_star_in ((b, ts) ∷ cs) d)

add_star_more :
    (cs : List Chunk) (c : ℕ) {s : Text}
    → c ≢ slash
    → ChunksMatch (add_star cs) s
    → ChunksMatch (add_star cs) (c ∷ s)
unfolding add_star
add_star_more [] c n d = skip refl n d
add_star_more ((b, ts) ∷ cs) c n d = skip refl n d

pub GlobMatches→ChunksMatch :
    {ps : List Piece} {s : Text} → GlobMatches ps s → ChunksMatch (chunks ps) s
unfolding chunks
GlobMatches→ChunksMatch end = end
GlobMatches→ChunksMatch (one {t} {c} {ps} a d) =
    add_test_in t (chunks ps) c a (GlobMatches→ChunksMatch d)
GlobMatches→ChunksMatch (stop {ps} d) = add_star_in (chunks ps) (GlobMatches→ChunksMatch d)
GlobMatches→ChunksMatch (more {c} {ps} n d) =
    add_star_more (chunks ps) c n (GlobMatches→ChunksMatch d)

-- What a match of a chunk that begins with `t` took first.
match_chunk-cons_inv :
    (t : Test) (ts : List Test) (s : Text) {left : Text}
    → match_chunk take_rune (t ∷ ts) s ≡ some left
    → (c : ℕ) × (r : Text) × (s ≡ c ∷ r)
      × (accepts t c ≡ true)
      × (match_chunk take_rune ts r ≡ some left)
unfolding take_rune match_chunk
match_chunk-cons_inv t ts [] h = cc
match_chunk-cons_inv t ts (c ∷ s) h = elim (Bool-cases (accepts t c)) [
  | inl a ↦ (c, s, refl, a, rw a at h)
  | inr n ↦ absurd (ground arith)
]

-- A chunk with no star begins at once.
unstarred_inv :
    {ts : List Test} {cs : List Chunk} {s : Text}
    → ChunksMatch ((false, ts) ∷ cs) s
    → (left : Text) × (match_chunk take_rune ts s ≡ some left) × ChunksMatch cs left
unstarred_inv (here {left} h d) = (left, h, d)
unstarred_inv (skip e n d) = cc

match_chunk-nil_inv : {s left : Text} → match_chunk take_rune [] s ≡ some left → left ≡ s
unfolding take_rune match_chunk
match_chunk-nil_inv h = cc

add_test_out :
    (t : Test) (cs : List Chunk) {s : Text}
    → ChunksMatch (add_test t cs) s
    → (c : ℕ) × (r : Text) × (s ≡ c ∷ r) × (accepts t c ≡ true) × ChunksMatch cs r
unfolding add_test
add_test_out t [] {s} d =
    let (left, h, d') = unstarred_inv d in
    let (c, r, e, a, m) = match_chunk-cons_inv t [] s h in
    (c, r, e, a, rw (match_chunk-nil_inv m) at d')
add_test_out t ((false, ts) ∷ cs) {s} d =
    let (left, h, d') = unstarred_inv d in
    let (c, r, e, a, m) = match_chunk-cons_inv t ts s h in (c, r, e, a, here m d')
add_test_out t ((true, ts) ∷ cs) {s} d =
    let (left, h, d') = unstarred_inv d in
    let (c, r, e, a, m) = match_chunk-cons_inv t [] s h in
    (c, r, e, a, rw (match_chunk-nil_inv m) at d')

-- A star, and then a match of the chunk behind it.
starred_out :
    (ps : List Piece) {b : Bool} {ts : List Test} {cs : List Chunk} {s : Text}
    → ((r left : Text)
        → match_chunk take_rune ts r ≡ some left
        → ChunksMatch cs left
        → GlobMatches ps r)
    → ChunksMatch ((b, ts) ∷ cs) s
    → GlobMatches (run ∷ ps) s
starred_out ps {s} found (here {left} h d) = stop (found s left h d)
starred_out ps found (skip e n d) = more n (starred_out ps found d)

add_star_out :
    (ps : List Piece) (cs : List Chunk) {s : Text}
    → ((r : Text) → ChunksMatch cs r → GlobMatches ps r)
    → ChunksMatch (add_star cs) s
    → GlobMatches (run ∷ ps) s
unfolding add_star
add_star_out ps [] ih d =
    starred_out ps {b = true} {ts = []} {cs = []}
      (λ r left h d'. ih r (rw (match_chunk-nil_inv h) at d')) d
add_star_out ps ((b, ts) ∷ cs) ih d = starred_out ps (λ r left h d'. ih r (here h d')) d

ChunksMatch→GlobMatches :
    (ps : List Piece) (s : Text) → ChunksMatch (chunks ps) s → GlobMatches ps s
unfolding chunks
ChunksMatch→GlobMatches [] s end = end
ChunksMatch→GlobMatches (run ∷ ps) s d = add_star_out ps (chunks ps) (ChunksMatch→GlobMatches ps) d
ChunksMatch→GlobMatches (single t ∷ ps) s d =
    let (c, r, e, a, d') = add_test_out t (chunks ps) d in
    rw e (one a (ChunksMatch→GlobMatches ps r d'))

-- Cutting a pattern into chunks keeps its meaning.
pub chunks_iff : (ps : List Piece) (s : Text) → ChunksMatch (chunks ps) s ↔ GlobMatches ps s
chunks_iff ps s = (ChunksMatch→GlobMatches ps s, GlobMatches→ChunksMatch)

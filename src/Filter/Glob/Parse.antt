-- ===== src/Filter/Glob/Parse.antt =====
-- Reading a pattern: the fuel is enough, and a pattern with no special character stands for itself.
use amqp_routing_inspector.Base.{
  ℕ, zero, suc, ◌≤◌, Bool, true, false, not, ◌&&◌, List, [], ◌∷◌, ◌≡◌, refl, sym, ap, ◌≢◌, inl, inr,
  some, none, Option, arith, Bool-cases, Option-cases, if◌then◌else◌, All, is_nil, nat_eq, list_eq,
  ◌==◌, ◌∙◌, length, map, ◌>>=◌, list_beq,
}
use amqp_routing_inspector.Base.Text.{Text}
use amqp_routing_inspector.Base.Text.Utf8.{IsAscii, encode-ascii}
use amqp_routing_inspector.Filter.Glob.Ascii.{match_chunks-ascii}
use amqp_routing_inspector.Filter.Glob.{
  backslash, Test, literal, single, get_esc, get_hi, get_ranges, get_class, next_piece, parse,
  chunks, match_chunk, take_rune, match_first, match_chunks, match_glob,
}

-- The rest that a reader leaves is at most `n` long.
abbrev Leaves {ℓ} : {A : Type ℓ} → ℕ → Option (A × Text) → Type 0
Leaves n none = Unit
Leaves n (some (a, rest)) = length rest ≤ n

get_esc-Leaves : (n : ℕ) (chunk : Text) → length chunk ≤ suc n → Leaves n (get_esc chunk)
unfolding get_esc
get_esc-Leaves n [] h = tt
get_esc-Leaves n (c ∷ []) h = ground arith
get_esc-Leaves n (c ∷ d ∷ []) h = ground arith
get_esc-Leaves n (c ∷ d ∷ e ∷ chunk) h = ground arith

get_hi-Leaves : (lo n : ℕ) (chunk : Text) → length chunk ≤ n → Leaves n (get_hi lo chunk)
unfolding get_hi
get_hi-Leaves lo n [] h = tt
get_hi-Leaves lo n (c ∷ chunk) h = ground (arith, get_esc-Leaves n chunk)

-- One range: both bounds read.
abbrev get_range : Text → Option ((ℕ × ℕ) × Text)
get_range chunk = get_esc chunk >>= λ (lo, rest). get_hi lo rest

get_range-Leaves : (n : ℕ) (chunk : Text) → length chunk ≤ suc n → Leaves n (get_range chunk)
get_range-Leaves n chunk h = elim (Option-cases (get_esc chunk)) [
  | inl e ↦ rw e tt
  | inr ((lo, rest), e) ↦ rw e (get_hi-Leaves lo n rest (rw e at (get_esc-Leaves n chunk h)))
]

abbrev ranges_from : ℕ → List (ℕ × ℕ) → Text → Option (List (ℕ × ℕ) × Text)
ranges_from f rs chunk = get_range chunk >>= λ (r, rest). get_ranges f (r ∷ rs) rest

-- The loop's two ways on: the closing bracket, or one more range.
abbrev close_or : List (ℕ × ℕ) → Text → Option (List (ℕ × ℕ) × Text) → Option (List (ℕ × ℕ) × Text)
close_or rs [] more = more
close_or rs (c ∷ rest) more = if c == b']' && not (is_nil rs) then some (rs, rest) else more

get_ranges-suc :
    (f : ℕ) (rs : List (ℕ × ℕ)) (chunk : Text)
    → get_ranges (suc f) rs chunk ≡ close_or rs chunk (ranges_from f rs chunk)
unfolding get_ranges
get_ranges-suc f rs [] = refl
get_ranges-suc f rs (c ∷ chunk) = elim (Option-cases (get_esc (c ∷ chunk))) [
  | inl e ↦ rw e
  | inr ((lo, rest), e) ↦ rw e
]

ranges_from-eq :
    (f g : ℕ) (rs : List (ℕ × ℕ)) (chunk : Text)
    → length chunk ≤ suc f
    → length chunk ≤ suc g
    → ((rs' : List (ℕ × ℕ)) (rest : Text)
        → length rest ≤ f
        → length rest ≤ g
        → get_ranges f rs' rest ≡ get_ranges g rs' rest)
    → ranges_from f rs chunk ≡ ranges_from g rs chunk
ranges_from-eq f g rs chunk hf hg ih = elim (Option-cases (get_range chunk)) [
  | inl e ↦ rw e
  | inr ((r, rest), e) ↦ rw e (
      ih (r ∷ rs) rest (rw e at (get_range-Leaves f chunk hf))
        (rw e at (get_range-Leaves g chunk hg)))
]

get_ranges-nil : (f : ℕ) (rs : List (ℕ × ℕ)) → get_ranges f rs [] ≡ none
unfolding get_ranges
get_ranges-nil zero rs = refl
get_ranges-nil (suc f) rs = refl

-- Any fuel from the length on gives the same ranges.
get_ranges-fuel :
    (f g : ℕ) (rs : List (ℕ × ℕ)) (chunk : Text)
    → length chunk ≤ f
    → length chunk ≤ g
    → get_ranges f rs chunk ≡ get_ranges g rs chunk
get_ranges-fuel zero g rs [] hf hg = get_ranges-nil zero rs ∙ sym (get_ranges-nil g rs)
get_ranges-fuel zero g rs (c ∷ chunk) hf hg = absurd (omega arith)
get_ranges-fuel (suc f) zero rs [] hf hg = get_ranges-nil (suc f) rs ∙ sym (get_ranges-nil zero rs)
get_ranges-fuel (suc f) zero rs (c ∷ chunk) hf hg = absurd (omega arith)
get_ranges-fuel (suc f) (suc g) rs chunk hf hg =
    rw (get_ranges-suc f rs chunk, get_ranges-suc g rs chunk)
      (ap (close_or rs chunk) (ranges_from-eq f g rs chunk hf hg (get_ranges-fuel f g)))

ranges_from-Leaves :
    (f n : ℕ) (rs : List (ℕ × ℕ)) (chunk : Text)
    → length chunk ≤ n
    → ((rs' : List (ℕ × ℕ)) (rest : Text) → length rest ≤ n → Leaves n (get_ranges f rs' rest))
    → Leaves n (ranges_from f rs chunk)
ranges_from-Leaves f n rs chunk h ih = elim (Option-cases (get_range chunk)) [
  | inl e ↦ rw e tt
  | inr ((r, rest), e) ↦ rw e (ih (r ∷ rs) rest (rw e at (get_range-Leaves n chunk (omega arith))))
]

close_or-Leaves :
    (n : ℕ) (rs : List (ℕ × ℕ)) (chunk : Text) (more : Option (List (ℕ × ℕ) × Text))
    → length chunk ≤ n
    → Leaves n more
    → Leaves n (close_or rs chunk more)
close_or-Leaves n rs [] more h m = m
close_or-Leaves n rs (c ∷ rest) more h m = elim (Bool-cases (c == b']' && not (is_nil rs))) [
  | inl e ↦ rw e (omega arith)
  | inr e ↦ rw e m
]

get_ranges-Leaves :
    (f n : ℕ) (rs : List (ℕ × ℕ)) (chunk : Text)
    → length chunk ≤ n
    → Leaves n (get_ranges f rs chunk)
get_ranges-Leaves zero n rs chunk h = unfold get_ranges in tt
get_ranges-Leaves (suc f) n rs chunk h = rw (get_ranges-suc f rs chunk) (
    close_or-Leaves n rs chunk _ h
      (ranges_from-Leaves f n rs chunk h (λ rs' rest. get_ranges-Leaves f n rs' rest)))

get_class-Leaves : (n : ℕ) (chunk : Text) → length chunk ≤ n → Leaves n (get_class chunk)
unfolding get_class
get_class-Leaves n [] h = tt
get_class-Leaves n (c ∷ chunk) h = elim (Option-cases (get_ranges (length (c ∷ chunk)) [] body)) [
  | inl e ↦ rw e tt
  | inr ((rs, rest), e) ↦ rw e (rw e at (get_ranges-Leaves (length (c ∷ chunk)) n [] body shorter))
]
  where
    body : Text
    body = if c == b'^' then chunk else c ∷ chunk

    shorter : length body ≤ n
    shorter = ground arith

next_piece-Leaves : (n c : ℕ) (chunk : Text) → length chunk ≤ n → Leaves n (next_piece c chunk)
unfolding next_piece
next_piece-Leaves n c [] h = ground (arith, get_class-Leaves n [] h)
next_piece-Leaves n c (d ∷ chunk) h = ground (arith, get_class-Leaves n (d ∷ chunk) h)

-- Any fuel from the pattern's length on reads the same pieces: `none` is never for want of fuel.
pub parse-fuel :
    (f g : ℕ) (pattern : Text)
    → length pattern ≤ f
    → length pattern ≤ g
    → parse f pattern ≡ parse g pattern
unfolding parse
parse-fuel zero zero pattern hf hg = refl
parse-fuel zero (suc g) [] hf hg = refl
parse-fuel zero (suc g) (c ∷ pattern) hf hg = absurd (omega arith)
parse-fuel (suc f) zero [] hf hg = refl
parse-fuel (suc f) zero (c ∷ pattern) hf hg = absurd (omega arith)
parse-fuel (suc f) (suc g) [] hf hg = refl
parse-fuel (suc f) (suc g) (c ∷ pattern) hf hg = elim (Option-cases (next_piece c pattern)) [
  | inl e ↦ rw e
  | inr ((piece, rest), e) ↦ rw (
    e,
    parse-fuel f g rest (rw e at (next_piece-Leaves f c pattern (omega arith)))
        (rw e at (next_piece-Leaves g c pattern (omega arith))),
  )
]

-- The characters that path.Match reads as themselves, anywhere in a pattern.
abbrev pub IsPlain : ℕ → Type 0
IsPlain c = (c ≢ b'*') × (c ≢ b'?') × (c ≢ b'[') × (c ≢ backslash)

next_piece-plain :
    (c : ℕ) (chunk : Text) → IsPlain c → next_piece c chunk ≡ some (single (literal c), chunk)
unfolding next_piece
next_piece-plain c chunk h = ground arith

parse-plain :
    (f : ℕ) (pattern : Text)
    → length pattern ≤ f
    → All IsPlain pattern
    → parse f pattern ≡ some (map (λ c. single (literal c)) pattern)
unfolding parse
parse-plain f [] h a = refl
parse-plain zero (c ∷ pattern) h a = absurd (omega arith)
parse-plain (suc f) (c ∷ pattern) h a =
    rw (next_piece-plain c pattern a.0, parse-plain f pattern (omega arith) a.1)

abbrev literals : Text → List Test
literals = map literal

chunks-plain :
    (c : ℕ) (pattern : Text)
    → chunks (map (λ d. single (literal d)) (c ∷ pattern)) ≡ (false, literals (c ∷ pattern)) ∷ []
unfolding chunks
chunks-plain c [] = refl
chunks-plain c (d ∷ pattern) = rw (chunks-plain d pattern)

-- What a chunk of literals leaves of a name, as the last chunk wants it: nothing.
abbrev took_all : Option Text → Bool
took_all none = false
took_all (some left) = is_nil left

match_chunk-literals :
    (pattern value : Text)
    → took_all (match_chunk take_rune (literals pattern) value) ≡ list_beq pattern value
unfolding match_chunk list_beq take_rune
match_chunk-literals [] [] = refl
match_chunk-literals [] (x ∷ value) = refl
match_chunk-literals (c ∷ pattern) [] = refl
match_chunk-literals (c ∷ pattern) (x ∷ value) = ground (arith, match_chunk-literals pattern value)

match_first-plain :
    (ts : List Test) (value : Text)
    → match_first take_rune false ts true (match_chunks take_rune []) value
      ≡ took_all (match_chunk take_rune ts value)
unfolding match_first match_chunks
match_first-plain ts value = ground arith

-- Among the values in ASCII a pattern with no special character matches itself and nothing else.
pub match_glob-plain :
    (pattern value : Text)
    → pattern ≢ []
    → All IsPlain pattern
    → IsAscii value
    → match_glob pattern value ≡ some (pattern == value)
unfolding match_glob
match_glob-plain [] value n a b = absurd (n refl)
match_glob-plain (c ∷ pattern) value n a b =
    rw
      (
        encode-ascii value b,
        parse-plain (length (c ∷ pattern)) (c ∷ pattern) (omega arith) a,
        chunks-plain c pattern,
        match_chunks-ascii ((false, literals (c ∷ pattern)) ∷ []) value b,
      )
      (ap some (
        match_first-plain (literals (c ∷ pattern)) value
        ∙ match_chunk-literals (c ∷ pattern) value))

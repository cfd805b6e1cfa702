-- ===== src/Firehose/Forward/Ends.antt =====
-- internal/firehose/consumer.go: the goroutine ends once its context or its source has ended.
use amqp_routing_inspector.Base.{
  ℕ, ◌+◌, ◌*◌, ◌≤◌, ◌<◌, inl, inr, ◌⊎◌, Bool, true, false, ◌||◌, List, [], ◌∷◌, ◌≡◌, refl, ◌∙◌,
  Option, none, some, arith, length, Bool-cases, Option-cases,
}
use amqp_routing_inspector.Firehose.Forward.{
  Position, selecting, holding, cleaning, closing_out, finished, Stream, cleanup, Move, see_end,
  receive, pass_on, clean_up, close_out, take_next, move_at, move,
}

-- Moves of the goroutine alone, each with what closing the channel would return.
unfoldable pub moves : {D E : Type 0} → List (Move × Option E) → Stream D E → Option (Stream D E)
moves [] s = some s
moves ((m, answer) ∷ ms) s = elim (move answer m s) [ none ↦ none | some t ↦ moves ms t ]

-- The context has ended, or the source is closed.
abbrev pub is_ending : {D E : Type 0} → Stream D E → Bool
is_ending s = s.cancelled || s.source_closed

abbrev rank : {D : Type 0} → Position D → ℕ → ℕ
rank selecting n = n * 2 + 3
rank (holding d) n = n * 2 + 4
rank cleaning n = 2
rank closing_out n = 1
rank finished n = 0

-- A bound on the moves that are left.
abbrev pub moves_left : {D E : Type 0} → Stream D E → ℕ
moves_left s = rank s.position (length s.incoming)

move-moves_left :
    {D E : Type 0} (answer : Option E) (p : Position D) (m : Move) (s t : Stream D E)
    → s.position ≡ p
    → move_at answer p m s ≡ some t
    → (moves_left t < moves_left s) × (is_ending t ≡ is_ending s)
unfolding cleanup
move-moves_left answer selecting see_end s t q e = ground arith
move-moves_left answer (holding d) see_end s t q e = ground arith
move-moves_left answer selecting receive s t q e = ground arith
move-moves_left answer (holding d) pass_on s t q e = ground arith
move-moves_left answer cleaning clean_up s t q e = ground arith
move-moves_left answer closing_out close_out s t q e = ground arith
move-moves_left answer _ _ s t q e = ground arith

-- It has finished, or it can make a move.
abbrev pub GoesOn : {D E : Type 0} → Option E → Stream D E → Type 0
GoesOn {D} {E} answer s =
    (s.position ≡ finished) ⊎ ((m : Move) × (t : Stream D E) × (move answer m s ≡ some t))

taken :
    {D E : Type 0} (ds : List D) (closed : Bool) (s : Stream D E)
    → closed ≡ true
    → (t : Stream D E) × (take_next ds closed s ≡ some t)
taken [] true s h = (_, refl)
taken [] false s h = cc
taken (d ∷ ds) closed s h = (_, refl)

goes_on :
    {D E : Type 0} (answer : Option E) (p : Position D) (s : Stream D E)
    → is_ending s ≡ true
    → (p ≡ finished) ⊎ ((m : Move) × (t : Stream D E) × (move_at answer p m s ≡ some t))
goes_on answer finished s e = inl refl
goes_on answer (holding d) s e = inr (pass_on, _, refl)
goes_on answer cleaning s e = inr (clean_up, _, refl)
goes_on answer closing_out s e = inr (close_out, _, refl)
goes_on answer selecting s e = elim (Bool-cases s.cancelled) [
  | inl c ↦ inr (see_end, record s { position = cleaning; dropped = [] }, simp c refl)
  | inr c ↦ let (t, f) = taken s.incoming s.source_closed s (ground arith) in inr (receive, t, f)
]

-- Once its context has ended or its source is closed, whatever moves the goroutine makes, they are at
-- most as many as `moves_left` says, and as long as it has not finished it can make one: every run of
-- it ends. The passing on of a delivery counts as a move, so the reader must go on reading.
pub moves-GoesOn :
    {D E : Type 0} (ms : List (Move × Option E)) (s t : Stream D E) (answer : Option E)
    → is_ending s ≡ true
    → moves ms s ≡ some t
    → (length ms + moves_left t ≤ moves_left s) × GoesOn answer t
unfolding moves move
moves-GoesOn [] s t answer h e = (ground arith, goes_on answer t.position t (ground arith))
moves-GoesOn {D} {E} ((m, a) ∷ ms) s t answer h e = elim (Option-cases (move a m s)) [
  | inl n ↦ cc (rw (n, moves) at e)
  | inr (u, n) ↦
      let (l, k) = move-moves_left a s.position m s u refl n in
      let (ih, on) = moves-GoesOn ms u t answer (k ∙ h) (rw (n, moves) at e) in
      (omega (arith, l, ih), on)
]

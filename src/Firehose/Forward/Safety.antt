-- ===== src/Firehose/Forward/Safety.antt =====
-- internal/firehose/consumer.go: what holds in every state of the goroutine.
use mathlib.Core.List.{append-nil, append_assoc}
use amqp_routing_inspector.Base.{
  ◌≤◌, Bool, true, ◌||◌, ◌&&◌, List, [], ◌∷◌, ◌++◌, ◌≡◌, refl, Option, some, is_nil, arith, length,
  if◌then◌else◌,
}
use amqp_routing_inspector.Firehose.Forward.{
  Position, selecting, holding, cleaning, closing_out, finished, Stream, fresh_stream, cleanup,
  Move, see_end, receive, pass_on, clean_up, close_out, move_at, move, Action, own, send,
  close_source, cancel, call_cleanup, act, sent_by, Reached, fresh, later,
}

abbrev in_hand : {D : Type 0} → Position D → List D
in_hand (holding d) = d ∷ []
in_hand _ = []

-- Why the goroutine may have left its loop.
abbrev may_leave : {D E : Type 0} → Stream D E → Bool
may_leave s = s.cancelled || (s.source_closed && is_nil s.incoming)

-- What the position says of the rest.
unfoldable pub At : {D E : Type 0} → Position D → Stream D E → Type 0
At selecting s = (s.dropped ≡ []) × (s.out_closes ≡ 0)
At (holding d) s = (s.dropped ≡ []) × (s.out_closes ≡ 0)
At cleaning s = (may_leave s ≡ true) × (s.out_closes ≡ 0)
At closing_out s = (may_leave s ≡ true) × (s.out_closes ≡ 0) × (s.cleaned ≡ true)
At finished s = (may_leave s ≡ true) × (s.out_closes ≡ 1) × (s.cleaned ≡ true)

pub record IsSafe {D E : Type 0} (sent : List D) (s : Stream D E) : Type 0 where
  pub kept : sent ≡ s.passed ++ (in_hand s.position ++ (s.dropped ++ s.incoming))
  pub lost : length s.dropped ≤ (if s.cancelled then 1 else 0)
  pub at_position : At s.position s
  pub once : s.channel_closes ≡ (if s.cleaned then 1 else 0)

cleanup-IsSafe :
    {D E : Type 0} (sent : List D) (answer : Option E) (s : Stream D E)
    → IsSafe sent s
    → IsSafe sent (cleanup answer s)
unfolding cleanup At
cleanup-IsSafe sent answer s h = ground arith

move-IsSafe :
    {D E : Type 0} (sent : List D) (answer : Option E) (p : Position D) (m : Move)
    (s t : Stream D E)
    → s.position ≡ p
    → IsSafe sent s
    → move_at answer p m s ≡ some t
    → IsSafe sent t
unfolding cleanup At
move-IsSafe sent answer selecting see_end s t q h e = ground arith
move-IsSafe sent answer (holding d) see_end s t q h e = ground arith
move-IsSafe sent answer selecting receive s t q h e = ground arith
move-IsSafe sent answer (holding d) pass_on s t q h e =
    ground (arith, append_assoc s.passed (d ∷ []) s.incoming)
move-IsSafe sent answer cleaning clean_up s t q h e = ground arith
move-IsSafe sent answer closing_out close_out s t q h e = ground arith
move-IsSafe sent answer _ _ s t q h e = ground arith

behind :
    {D : Type 0} (xs bs cs ds es : List D)
    → (xs ++ (bs ++ (cs ++ ds))) ++ es ≡ xs ++ (bs ++ (cs ++ (ds ++ es)))
behind xs bs cs ds es =
    rw (append_assoc xs (bs ++ (cs ++ ds)) es, append_assoc bs (cs ++ ds) es, append_assoc cs ds es)
      refl

act-IsSafe :
    {D E : Type 0} (sent : List D) (a : Action D E) (s t : Stream D E)
    → IsSafe sent s
    → act a s ≡ some t
    → IsSafe (sent ++ sent_by a) t
unfolding act move At
act-IsSafe sent (own answer m) s t h e =
    rw (append-nil sent) (move-IsSafe sent answer s.position m s t refl h e)
act-IsSafe sent (send d) s t h e =
    ground (arith, behind s.passed (in_hand s.position) s.dropped s.incoming (d ∷ []))
act-IsSafe sent close_source s t h e = rw (append-nil sent) (ground arith)
act-IsSafe sent cancel s t h e = rw (append-nil sent) (ground arith)
act-IsSafe sent (call_cleanup answer) s t h e =
    rw (append-nil sent) (ground (arith, cleanup-IsSafe sent answer s h))

-- In every state that actions lead to, what was sent is, in its order, what the reader got, what the
-- goroutine holds or dropped, and what it has not taken. It drops at most one delivery, and only where
-- its context ended. It leaves its loop only where the context ended or the source is closed and empty.
-- It closes `out` once, at its end, and by then the channel is closed; the channel is never closed
-- twice, however often cleanup is called.
pub Reached-IsSafe :
    {D E : Type 0} {sent : List D} {s : Stream D E} → Reached sent s → IsSafe sent s
unfolding fresh_stream At
Reached-IsSafe fresh = record {
  kept = refl;
  lost = omega arith;
  at_position = (refl, refl);
  once = refl;
}
Reached-IsSafe (later {sent} {s} {t} a r e) = act-IsSafe sent a s t (Reached-IsSafe r) e

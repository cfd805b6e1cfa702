-- ===== src/Parser/Destinations/Dedupe.antt =====
-- internal/parser/parser.go: what dedupeDestinations keeps and drops.
use mathlib.Core.Path.{ap₂}
use mathlib.Core.Bool.{Bool-set}
use mathlib.Core.Logic.Or
use mathlib.Core.List.{
  Mem, Mem-prop, Nodup, Nodup-cons, Nodup-nil, mem-cons, not-mem-nil, append_assoc,
}
use amqp_routing_inspector.Base.{
  ℕ, inl, inr, true, false, List, [], ◌∷◌, ◌++◌, map, ◌≡◌, refl, sym, ap, nat_eq, list_eq, ◌==◌,
  arith, Bool-cases, beq_refl, beq_of_eq, eq_of_beq,
}
use amqp_routing_inspector.Base.Text.{Text}
use amqp_routing_inspector.Base.Text.Split.{Lacks}
use amqp_routing_inspector.Base.Map.{contains}
use amqp_routing_inspector.Model.{QueueDestination}
use amqp_routing_inspector.Parser.Destinations.{dedupe_key, dedupe_from, dedupe_destinations}

abbrev bar : ℕ
bar = b'|'

abbrev pub keys_of : List QueueDestination → List Text
keys_of = map dedupe_key

contains-cons :
    (k j : Text) (seen : List Text) → contains k (j ∷ seen) ≡ false → contains k seen ≡ false
unfolding contains
contains-cons k j seen h = ground arith

contains_head : (k : Text) (seen : List Text) → contains k (k ∷ seen) ≡ true
unfolding contains
contains_head k seen = rw (beq_refl k)

-- No key that was seen is kept.
kept_unseen :
    (seen : List Text) (ds : List QueueDestination) (k : Text)
    → Mem k (keys_of (dedupe_from seen ds))
    → contains k seen ≡ false
unfolding dedupe_from
kept_unseen seen [] k m = absurd (not-mem-nil m)
kept_unseen seen (d ∷ ds) k m = elim (Bool-cases (contains (dedupe_key d) seen)) [
  | inl old ↦ kept_unseen seen ds k (rw old at m)
  | inr new ↦
      Or.elim (Bool-set _ _) (mem-cons.0 (rw new at m)) (λ e. rw e new)
        (λ r. contains-cons k (dedupe_key d) seen (kept_unseen (dedupe_key d ∷ seen) ds k r))
]

dedupe_from-Nodup :
    (seen : List Text) (ds : List QueueDestination) → Nodup (keys_of (dedupe_from seen ds))
unfolding dedupe_from
dedupe_from-Nodup seen [] = Nodup-nil
dedupe_from-Nodup seen (d ∷ ds) = elim (Bool-cases (contains (dedupe_key d) seen)) [
  | inl old ↦ rw old (dedupe_from-Nodup seen ds)
  | inr new ↦ rw new (
      Nodup-cons.1 (
        λ m. cc (
          kept_unseen (dedupe_key d ∷ seen) ds (dedupe_key d) m,
          contains_head (dedupe_key d) seen,
        ),
        dedupe_from-Nodup (dedupe_key d ∷ seen) ds,
      ))
]

unseen-cons :
    (k j : Text) (seen : List Text)
    → (j == k) ≡ false
    → contains k seen ≡ false
    → contains k (j ∷ seen) ≡ false
unfolding contains
unseen-cons k j seen n h = rw n h

dedupe_from_covers :
    (seen : List Text) (ds : List QueueDestination) (k : Text)
    → contains k seen ≡ false
    → Mem k (keys_of ds)
    → Mem k (keys_of (dedupe_from seen ds))
unfolding dedupe_from
dedupe_from_covers seen [] k u m = absurd (not-mem-nil m)
dedupe_from_covers seen (d ∷ ds) k u m = elim (Bool-cases (contains (dedupe_key d) seen)) [
  | inl old ↦ rw old (
      Or.elim Mem-prop (mem-cons.0 m) (λ e. absurd (cc (ap (λ j. contains j seen) e, u, old)))
        (dedupe_from_covers seen ds k u))
  | inr new ↦ rw new (elim (Bool-cases (dedupe_key d == k)) [
    | inl same ↦ mem-cons.1 (Or.inl (sym (eq_of_beq (dedupe_key d) k same)))
    | inr other ↦
        Or.elim Mem-prop (mem-cons.0 m) (λ e. mem-cons.1 (Or.inl e))
          (λ r. mem-cons.1 (
            Or.inr (
              dedupe_from_covers (dedupe_key d ∷ seen) ds k
                (unseen-cons k (dedupe_key d) seen other u) r)))
  ])
]

dedupe_from_within :
    (seen : List Text) (ds : List QueueDestination) (d : QueueDestination)
    → Mem d (dedupe_from seen ds)
    → Mem d ds
unfolding dedupe_from
dedupe_from_within seen [] d m = absurd (not-mem-nil m)
dedupe_from_within seen (x ∷ ds) d m = elim (Bool-cases (contains (dedupe_key x) seen)) [
  | inl old ↦ mem-cons.1 (Or.inr (dedupe_from_within seen ds d (rw old at m)))
  | inr new ↦
      Or.elim Mem-prop (mem-cons.0 (rw new at m)) (λ e. mem-cons.1 (Or.inl e))
        (λ r. mem-cons.1 (Or.inr (dedupe_from_within (dedupe_key x ∷ seen) ds d r)))
]

-- dedupeDestinations keeps one destination for each key: the keys of its result are distinct, they
-- are the keys of its input, and its destinations are among those of its input.
pub dedupe_destinations_lem :
    (ds : List QueueDestination)
    → Nodup (keys_of (dedupe_destinations ds))
      × ((k : Text) → Mem k (keys_of ds) → Mem k (keys_of (dedupe_destinations ds)))
      × ((d : QueueDestination) → Mem d (dedupe_destinations ds) → Mem d ds)
unfolding dedupe_destinations
dedupe_destinations_lem ds = (
  dedupe_from-Nodup [] ds,
  λ k m. dedupe_from_covers [] ds k (unfold contains in refl) m,
  dedupe_from_within [] ds,
)

abbrev first : Text → ℕ
first [] = 0
first (c ∷ s) = c

abbrev others : Text → Text
others [] = []
others (c ∷ s) = s

append_bar :
    (q r s t : Text) → Lacks bar q → Lacks bar r → q ++ bar ∷ s ≡ r ++ bar ∷ t → (q ≡ r) × (s ≡ t)
append_bar [] [] s t hq hr e = (refl, ap others e)
append_bar [] (c ∷ r) s t hq hr e = absurd (hr.0 (sym (ap first e)))
append_bar (c ∷ q) [] s t hq hr e = absurd (hq.0 (ap first e))
append_bar (c ∷ q) (d ∷ r) s t hq hr e =
    let (names, keys) = append_bar q r s t hq.1 hr.1 (ap others e) in
    (ap₂ ◌∷◌ (ap first e) names, keys)

-- Where no queue name holds a "|", the key tells destinations apart.
dedupe_key-injective :
    (a b : QueueDestination)
    → Lacks bar a.queue_name
    → Lacks bar b.queue_name
    → dedupe_key a ≡ dedupe_key b
    → a ≡ b
unfolding dedupe_key
dedupe_key-injective a b ha hb e =
    ground (arith, append_bar a.queue_name b.queue_name a.binding_key b.binding_key ha hb e)

same_key :
    (a b c : Text)
    → dedupe_key (record { queue_name = a ++ bar ∷ b; binding_key = c })
      ≡ dedupe_key (record { queue_name = a; binding_key = b ++ bar ∷ c })
unfolding dedupe_key
same_key a b c = append_assoc a (bar ∷ b) (bar ∷ c)

-- A "|" in a queue name can make two different destinations one: the second is dropped.
pub dedupe_destinations_drops :
    (a b c : Text)
    → dedupe_destinations (
        record { queue_name = a ++ bar ∷ b; binding_key = c }
        ∷ record { queue_name = a; binding_key = b ++ bar ∷ c }
        ∷ [])
      ≡ record { queue_name = a ++ bar ∷ b; binding_key = c } ∷ []
unfolding dedupe_destinations contains
dedupe_destinations_drops a b c = rw (beq_of_eq _ _ (same_key a b c))

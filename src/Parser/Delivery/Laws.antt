-- ===== src/Parser/Delivery/Laws.antt =====
-- internal/parser/parser.go: what ParseDelivery promises.
use mathlib.Core.List.{Nodup, append-nil}
use amqp_routing_inspector.Base.{
  ℕ, inl, inr, ◌⊎◌, ◌≤◌, true, false, ◌&&◌, List, [], ◌∷◌, ◌++◌, ◌≡◌, ◌≢◌, refl, nat_eq, list_eq,
  arith, Bool-cases, beq_of_eq, beq_of_ne, is_nil, length, drop, length-take, take-append-drop, ltb,
}
use amqp_routing_inspector.Base.Int.{ℤ, pos, negsuc, is_positive, ltb_ℤ, to_ℕ}
use amqp_routing_inspector.Base.Text.{Text, Bytes}
use amqp_routing_inspector.Model.{Time, is_zero, utc, QueueDestination, RoutingEvent}
use amqp_routing_inspector.Parser.Headers.{parse_routing_key}
use amqp_routing_inspector.Parser.Destinations.{
  Result, ok, err, ParseError, parse_destinations, dedupe_destinations,
}
use amqp_routing_inspector.Parser.Destinations.Dedupe.{dedupe_destinations_lem, keys_of}
use amqp_routing_inspector.Parser.Delivery.{
  EventParser, Delivery, event_type_of, exchange_found, exchange_name_of, timestamp_of,
  body_preview_of, event_with, parse_delivery,
}

is_nil-false : (s : Text) → is_nil s ≡ false → s ≢ []
is_nil-false [] h = cc
is_nil-false (c ∷ s) h = λ e. cc

abbrev found : Delivery → Result (List QueueDestination)
found d = parse_destinations d.headers (event_type_of d) d.routing_key (parse_routing_key d.headers)

Result-cases {ℓ} :
    {A : Type ℓ} (r : Result A) → ((a : A) × (r ≡ ok a)) ⊎ ((e : ParseError) × (r ≡ err e))
Result-cases (ok a) = inl (a, refl)
Result-cases (err e) = inr (e, refl)

err_not_ok {ℓ} : {A : Type ℓ} (e : ParseError) (a : A) → err e ≢ ok a
err_not_ok e a h = cc

ok_inj {ℓ} : {A : Type ℓ} (a b : A) → ok a ≡ ok b → a ≡ b
ok_inj a b h = cc

exchange_name_of-ne-nil : (d : Delivery) → exchange_name_of d ≢ []
unfolding exchange_name_of
exchange_name_of-ne-nil d = elim (Bool-cases (is_nil (exchange_found d))) [
  | inl e ↦ rw e (λ q. cc)
  | inr e ↦ rw e (is_nil-false (exchange_found d) e)
]

is_zero_of : (t : Time) → t.since_zero ≡ 0 → is_zero t ≡ true
unfolding is_zero
is_zero_of t e = beq_of_eq t.since_zero 0 e

is_zero-false : (t : Time) → t.since_zero ≢ 0 → is_zero t ≡ false
unfolding is_zero
is_zero-false t n = beq_of_ne t.since_zero 0 n

timestamp_of-zone : (now : Time) (d : Delivery) → (timestamp_of now d).zone ≡ 0
unfolding timestamp_of utc
timestamp_of-zone now d = elim (Bool-cases (is_zero d.timestamp)) [
  | inl e ↦ rw e refl
  | inr e ↦ rw e refl
]

timestamp_of-now :
    (now : Time) (d : Delivery)
    → d.timestamp.since_zero ≡ 0
    → (timestamp_of now d).since_zero ≡ now.since_zero
unfolding timestamp_of utc
timestamp_of-now now d e = rw (is_zero_of d.timestamp e) refl

timestamp_of-kept :
    (now : Time) (d : Delivery)
    → d.timestamp.since_zero ≢ 0
    → (timestamp_of now d).since_zero ≡ d.timestamp.since_zero
unfolding timestamp_of utc
timestamp_of-kept now d n = rw (is_zero-false d.timestamp n) refl

short_fits : (m : ℤ) (n : ℕ) → is_positive m ≡ true → ltb_ℤ m (pos n) ≡ false → n ≤ to_ℕ m
short_fits (pos m) n h e = ground arith
short_fits (negsuc m) n h e = cc

-- The preview is the body up to MaxBodyBytes, and nothing where that is not positive.
body_preview_of-bound :
    (p : EventParser) (body : Bytes) → length (body_preview_of p body) ≤ to_ℕ p.max_body_bytes
unfolding body_preview_of
body_preview_of-bound p body =
    ground
      (arith, length-take (to_ℕ p.max_body_bytes) body, short_fits p.max_body_bytes (length body))

body_preview_of-prefix :
    (p : EventParser) (body : Bytes) → (rest : Bytes) × (body_preview_of p body ++ rest ≡ body)
unfolding body_preview_of
body_preview_of-prefix p body =
    elim (Bool-cases (is_positive p.max_body_bytes && ltb 0 (length body))) [
      | inr e ↦ rw e (body, refl)
      | inl e ↦ rw e (elim (Bool-cases (ltb_ℤ p.max_body_bytes (pos (length body)))) [
        | inl f ↦
            rw f (drop (to_ℕ p.max_body_bytes) body, take-append-drop (to_ℕ p.max_body_bytes) body)
        | inr f ↦ rw f ([], append-nil body)
      ])
    ]

-- What holds of every event that ParseDelivery returns.
pub record IsEvent (p : EventParser) (now : Time) (d : Delivery) (event : RoutingEvent)
    : Type 0 where
  pub exchange : event.exchange_name ≢ []
  pub zone : event.timestamp.zone ≡ 0
  pub clock : d.timestamp.since_zero ≡ 0 → event.timestamp.since_zero ≡ now.since_zero
  pub kept : d.timestamp.since_zero ≢ 0 → event.timestamp.since_zero ≡ d.timestamp.since_zero
  pub destinations_once : Nodup (keys_of event.destinations)
  pub preview_bound : length event.body_preview ≤ to_ℕ p.max_body_bytes
  pub preview_prefix : (rest : Bytes) × (event.body_preview ++ rest ≡ d.body)

event_with-IsEvent :
    (p : EventParser) (now : Time) (d : Delivery) (ds : List QueueDestination)
    → IsEvent p now d (event_with p now d (dedupe_destinations ds))
unfolding event_with
event_with-IsEvent p now d ds = record {
  exchange = exchange_name_of-ne-nil d;
  zone = timestamp_of-zone now d;
  clock = timestamp_of-now now d;
  kept = timestamp_of-kept now d;
  destinations_once = (dedupe_destinations_lem ds).0;
  preview_bound = body_preview_of-bound p d.body;
  preview_prefix = body_preview_of-prefix p d.body;
}

-- Where ParseDelivery returns an event, its exchange has a name, its time is in UTC and is the
-- delivery's or the clock's, no destination key comes twice, and the preview is a prefix of the
-- body of at most MaxBodyBytes bytes.
pub parse_delivery-IsEvent :
    (p : EventParser) (now : Time) (d : Delivery) (event : RoutingEvent)
    → parse_delivery p now d ≡ ok event
    → IsEvent p now d event
unfolding parse_delivery
parse_delivery-IsEvent p now d event h = elim (Result-cases (found d)) [
  | inl (ds, e) ↦ rw (← ok_inj _ _ (rw e at h)) (event_with-IsEvent p now d ds)
  | inr (e, f) ↦ absurd (err_not_ok _ _ (rw f at h))
]

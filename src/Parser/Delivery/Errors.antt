-- ===== src/Parser/Delivery/Errors.antt =====
-- internal/parser/parser.go: when ParseDelivery returns an error, and a nil header table.
use amqp_routing_inspector.Base.{
  inl, inr, ◌↔◌, List, [], ◌∷◌, ◌≡◌, ◌≢◌, refl, sym, ap, ◌∙◌, none, some, nat_eq, list_eq,
  Option-cases,
}
use amqp_routing_inspector.Base.Text.{Text, codes}
use amqp_routing_inspector.Model.{Time}
use amqp_routing_inspector.Parser.Value.{Value, Fields, no_fields, Table, get_field}
use amqp_routing_inspector.Parser.Headers.{header_string, field_string, parse_routing_key}
use amqp_routing_inspector.Parser.Destinations.{
  ok, err, ParseError, parse_destinations, parse_destination_list, named_queue, dedupe_destinations,
}
use amqp_routing_inspector.Parser.Destinations.Refused.{
  IsRefusedFor, parse_destination_list_err_iff, bind_err_iff,
}
use amqp_routing_inspector.Parser.Delivery.{
  EventParser, Delivery, event_type_of, exchange_found, exchange_name_of, event_with,
  parse_delivery,
}

-- The header "destinations" is there, and `e` is the error for its value.
pub IsRefused : Table → ParseError → Type 0
IsRefused headers e =
    (fs : Fields) × (raw : Value) × (headers ≡ some fs)
    × (get_field (codes "destinations") fs ≡ some raw)
    × IsRefusedFor raw e

ok_not_err {ℓ} : {A : Type ℓ} (a : A) (e : ParseError) → ok a ≢ err e
ok_not_err a e h = cc

none_not_some {ℓ} : {A : Type ℓ} (a : A) → none ≢ some a
none_not_some a h = cc

some_inj {ℓ} : {A : Type ℓ} (a b : A) → some a ≡ some b → a ≡ b
some_inj a b h = cc

parse_destinations_err_iff :
    (headers : Table) (event_type key parsed : Text) (e : ParseError)
    → (parse_destinations headers event_type key parsed ≡ err e) ↔ IsRefused headers e
unfolding parse_destinations IsRefused
parse_destinations_err_iff none event_type key parsed e =
    (λ h. absurd (ok_not_err _ _ h), λ (fs, raw, q, g, r). absurd (none_not_some _ q))
parse_destinations_err_iff (some fs) event_type key parsed e =
    elim (Option-cases (get_field (codes "destinations") fs)) [
      | inl n ↦ rw n (
        λ h. absurd (ok_not_err _ _ h),
        λ (gs, raw, q, g, r). absurd (
            none_not_some raw (sym n ∙ ap (get_field (codes "destinations")) (some_inj _ _ q) ∙ g)),
      )
      | inr (raw, s) ↦ rw s (
        λ h. (fs, raw, refl, s, (parse_destination_list_err_iff raw e).0 h),
        λ (gs, raw2, q, g, r).
            ap parse_destination_list
              (some_inj _ _ (sym s ∙ ap (get_field (codes "destinations")) (some_inj _ _ q) ∙ g))
            ∙ (parse_destination_list_err_iff raw2 e).1 r,
      )
    ]

-- ParseDelivery returns an error exactly when the header table holds "destinations" with a value that is
-- neither a string nor a []string nor a list whose entries are nil, tables, maps or strings; the error
-- names that value, or else the list's first entry of another type.
pub parse_delivery_err_iff :
    (p : EventParser) (now : Time) (d : Delivery) (e : ParseError)
    → (parse_delivery p now d ≡ err e) ↔ IsRefused d.headers e
unfolding parse_delivery
parse_delivery_err_iff p now d e =
    let (there, back) =
      bind_err_iff
        (parse_destinations d.headers (event_type_of d) d.routing_key (parse_routing_key d.headers))
        (λ ds. event_with p now d (dedupe_destinations ds)) e in
    let (in_table, of_table) =
      parse_destinations_err_iff d.headers (event_type_of d) d.routing_key
        (parse_routing_key d.headers) e in
    (λ h. in_table (there h), λ r. back (of_table r))

field_string-no_fields : (keys : List Text) → field_string no_fields keys ≡ []
unfolding field_string get_field
field_string-no_fields [] = refl
field_string-no_fields (key ∷ keys) = field_string-no_fields keys

header_string_empty :
    (keys : List Text) → header_string (some no_fields) keys ≡ header_string none keys
unfolding header_string
header_string_empty keys = field_string-no_fields keys

parse_routing_key_empty : parse_routing_key (some no_fields) ≡ parse_routing_key none
unfolding parse_routing_key header_string field_string get_field
parse_routing_key_empty = refl

-- A delivery with no header table parses as one with an empty table.
parse_delivery-nil_headers :
    (p : EventParser) (now : Time) (d : Delivery)
    → parse_delivery p now (record d { headers = none })
      ≡ parse_delivery p now (record d { headers = some no_fields })
unfolding parse_delivery parse_destinations named_queue event_with event_type_of exchange_name_of
    exchange_found parse_routing_key header_string field_string get_field
parse_delivery-nil_headers p now d = refl

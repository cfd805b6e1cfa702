-- ===== src/Parser/Destinations/Refused.antt =====
-- internal/parser/parser.go: which values parseDestinationList refuses.
use amqp_routing_inspector.Base.{Bool, true, false, inl, inr, ◌⊎◌, ◌↔◌, ◌≡◌, refl, sym, ◌∙◌, arith}
use amqp_routing_inspector.Model.{QueueDestination}
use amqp_routing_inspector.Parser.Value.{
  Value, nil, str, bytes, table, string_map, list, strings, stringer, other, Items, no_items, item,
}
use amqp_routing_inspector.Parser.Destinations.{
  Result, ok, err, ◌>>=◌, ParseError, unsupported_destinations, unsupported_entry,
  parse_destination_entry, parse_entries, parse_destination_list,
}

-- The types that an entry of a list may have: nil, a table, a map or a string.
pub is_entry : Value → Bool
is_entry nil = true
is_entry (str s) = true
is_entry (table fs) = true
is_entry (string_map fs) = true
is_entry _ = false

-- The first entry of another type.
pub data FirstBad : Items → Value → Type 0 where
  here : {v : Value} {vs : Items} → is_entry v ≡ false → FirstBad (item v vs) v
  later : {v w : Value} {vs : Items} → is_entry v ≡ true → FirstBad vs w → FirstBad (item v vs) w

-- A list is refused for its first entry of another type, a []string and a string never, and a value of
-- any other type for its type.
abbrev pub IsRefusedFor : Value → ParseError → Type 0
IsRefusedFor (list vs) e = (v : Value) × FirstBad vs v × (e ≡ unsupported_entry v)
IsRefusedFor (strings ss) e = ⊥
IsRefusedFor (str s) e = ⊥
IsRefusedFor v e = e ≡ unsupported_destinations v

entry_cases :
    (v : Value)
    → ((is_entry v ≡ true) × ((d : QueueDestination) × (parse_destination_entry v ≡ ok d)))
      ⊎ ((is_entry v ≡ false) × (parse_destination_entry v ≡ err (unsupported_entry v)))
unfolding is_entry parse_destination_entry
entry_cases nil = inl (refl, (_, refl))
entry_cases (str s) = inl (refl, (_, refl))
entry_cases (table fs) = inl (refl, (_, refl))
entry_cases (string_map fs) = inl (refl, (_, refl))
entry_cases (bytes s) = inr (refl, refl)
entry_cases (list vs) = inr (refl, refl)
entry_cases (strings ss) = inr (refl, refl)
entry_cases (stringer s) = inr (refl, refl)
entry_cases (other s) = inr (refl, refl)

err_inj {ℓ} : {A : Type ℓ} (a b : ParseError) → ◌≡◌ {A = Result A} (err a) (err b) → a ≡ b
err_inj a b h = cc

pub bind_err_iff {ℓ κ} :
    {A : Type ℓ} {B : Type κ} (r : Result A) (f : A → B) (e : ParseError)
    → ((r >>= (λ a. ok (f a))) ≡ err e) ↔ (r ≡ err e)
bind_err_iff (ok a) f e = (λ h. cc, λ h. cc)
bind_err_iff (err x) f e = (λ h. cc, λ h. cc)

parse_entries_err :
    (vs : Items) (v : Value) → FirstBad vs v → parse_entries vs ≡ err (unsupported_entry v)
unfolding parse_entries
parse_entries_err no_items w bad = elim bad [ ]
parse_entries_err (item v vs) _ (here b) = elim (entry_cases v) [
  | inl (t, _) ↦ absurd (ground arith)
  | inr (_, q) ↦ rw q refl
]
parse_entries_err (item v vs) w (later t bad) = elim (entry_cases v) [
  | inl (_, (d, q)) ↦ rw (q, parse_entries_err vs w bad) refl
  | inr (b, _) ↦ absurd (ground arith)
]

parse_entries_bad :
    (vs : Items) (e : ParseError)
    → parse_entries vs ≡ err e
    → (v : Value) × FirstBad vs v × (e ≡ unsupported_entry v)
unfolding parse_entries
parse_entries_bad no_items e h = cc
parse_entries_bad (item v vs) e h = elim (entry_cases v) [
  | inl (t, (d, q)) ↦
      let (w, bad, r) =
        parse_entries_bad vs e ((bind_err_iff (parse_entries vs) _ e).0 (rw q at h)) in
      (w, later t bad, r)
  | inr (b, q) ↦ (v, here b, err_inj e (unsupported_entry v) (sym h ∙ (rw q refl)))
]

-- parseDestinationList returns an error exactly on these values, and then that error.
pub parse_destination_list_err_iff :
    (v : Value) (e : ParseError) → (parse_destination_list v ≡ err e) ↔ IsRefusedFor v e
unfolding parse_destination_list
parse_destination_list_err_iff (list vs) e =
    (parse_entries_bad vs e, λ (v, bad, q). rw q (parse_entries_err vs v bad))
parse_destination_list_err_iff (strings ss) e = (λ h. cc, λ h. absurd h)
parse_destination_list_err_iff (str s) e = (λ h. ground arith, λ h. absurd h)
parse_destination_list_err_iff nil e = (λ h. cc, λ h. cc)
parse_destination_list_err_iff (bytes s) e = (λ h. cc, λ h. cc)
parse_destination_list_err_iff (table fs) e = (λ h. cc, λ h. cc)
parse_destination_list_err_iff (string_map fs) e = (λ h. cc, λ h. cc)
parse_destination_list_err_iff (stringer s) e = (λ h. cc, λ h. cc)
parse_destination_list_err_iff (other s) e = (λ h. cc, λ h. cc)

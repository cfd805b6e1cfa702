-- ===== src/Output/Json/Reader.antt =====
-- A reader of JSON texts, by RFC 8259, for the values that the JSON renderer writes: strings, arrays
-- and objects, with no white space between them.
pub mod Strings
pub mod Values
use amqp_routing_inspector.Base.{
  ℕ, zero, suc, ◌+◌, ◌-◌, ◌*◌, Bool, true, false, ◌&&◌, List, [], ◌∷◌, Option, none, some, leb, ltb,
  nat_eq, ◌==◌, ◌>>=◌, if◌then◌else◌,
}
use amqp_routing_inspector.Base.Text.{Text}
use amqp_routing_inspector.Base.Text.Quote.{backslash, quote_mark}
use amqp_routing_inspector.Output.Json.{
  JsonValue, string, array, object, Items, no_items, item, Members, no_members, member,
}

unfoldable pub unhex : ℕ → Option ℕ
unhex c =
    if leb b'0' c && leb c b'9'
    then some (c - b'0')
    else if leb b'a' c && leb c b'f'
    then some (c - b'a' + 10)
    else if leb b'A' c && leb c b'F'
    then some (c - b'A' + 10)
    else none

-- The rune that a letter behind a backslash stands for.
unfoldable pub unescape : ℕ → Option ℕ
unescape c =
    if c == quote_mark
    then some quote_mark
    else if c == backslash
    then some backslash
    else if c == b'/'
    then some b'/'
    else if c == b'b'
    then some 8
    else if c == b'f'
    then some 12
    else if c == b'n'
    then some 10
    else if c == b'r'
    then some 13
    else if c == b't'
    then some 9
    else none

-- Where the reader of a string stands: `in_number` has that many digits more to come behind the next.
pub data Place : Type 0 where
  in_text : Place
  behind_backslash : Place
  in_number : ℕ → ℕ → Place

abbrev pub push : ℕ → Option (Text × Text) → Option (Text × Text)
push c none = none
push c (some (s, rest)) = some (c ∷ s, rest)

-- Reads a string from behind its opening quote.
unfoldable pub read_string : Place → Text → Option (Text × Text)
unfolding unhex unescape
read_string place [] = none
read_string in_text (c ∷ s) =
    let plain = push c (read_string in_text s) in
    let escape = read_string behind_backslash s in
    if c == quote_mark
    then some ([], s)
    else if c == backslash
    then escape
    else if ltb c 0x20
    then none
    else plain
read_string behind_backslash (c ∷ s) =
    let number = read_string (in_number 3 0) s in
    let letter = unescape c >>= λ d. push d (read_string in_text s) in
    if c == b'u' then number else letter
read_string (in_number zero n) (c ∷ s) = unhex c >>= λ d. push (n * 16 + d) (read_string in_text s)
read_string (in_number (suc more) n) (c ∷ s) =
    unhex c >>= λ d. read_string (in_number more (n * 16 + d)) s

-- What follows an item: the array's end, or a comma and more items.
abbrev pub after_item :
    (Text → Option (Items Text × Text)) → JsonValue Text → Text → Option (Items Text × Text)
after_item more v [] = none
after_item more v (c ∷ s) =
    if c == b']'
    then some (item v no_items, s)
    else if c == b','
    then (more s >>= λ r. some (item v r.0, r.1))
    else none

abbrev pub after_member :
    (Text → Option (Members Text × Text))
    → Text
    → JsonValue Text
    → Text
    → Option (Members Text × Text)
after_member more k v [] = none
after_member more k v (c ∷ s) =
    if c == b'}'
    then some (member k v no_members, s)
    else if c == b','
    then (more s >>= λ r. some (member k v r.0, r.1))
    else none

-- The items of an array from behind its bracket.
abbrev pub items_or_none : (Text → Option (Items Text × Text)) → Text → Option (Items Text × Text)
items_or_none more [] = none
items_or_none more (c ∷ s) = if c == b']' then some (no_items, s) else more (c ∷ s)

abbrev pub members_or_none :
    (Text → Option (Members Text × Text)) → Text → Option (Members Text × Text)
members_or_none more [] = none
members_or_none more (c ∷ s) = if c == b'}' then some (no_members, s) else more (c ∷ s)

-- A string's quote, its text, and what `next` makes of both.
abbrev pub quoted_then : {A : Type 0} → Text → (Text → Text → Option A) → Option A
quoted_then [] next = none
quoted_then (c ∷ s) next =
    if c == quote_mark then (read_string in_text s >>= λ r. next r.0 r.1) else none

-- A member's colon, and what `next` makes of the text behind it.
abbrev pub colon_then : {A : Type 0} → Text → (Text → Option A) → Option A
colon_then [] next = none
colon_then (c ∷ s) next = if c == b':' then next s else none

-- On fuel: each value within another takes one.
unfoldable mutual
  unfolding read_string

  pub read_value : ℕ → Text → Option (JsonValue Text × Text)
  read_value fuel [] = none
  read_value zero (c ∷ s) = none
  read_value (suc fuel) (c ∷ s) =
      let items = items_or_none (read_items fuel) s >>= λ r. some (array r.0, r.1) in
      let members = members_or_none (read_members fuel) s >>= λ r. some (object r.0, r.1) in
      if c == b'['
      then items
      else if c == b'{'
      then members
      else quoted_then (c ∷ s) (λ t rest. some (string t, rest))

  pub read_items : ℕ → Text → Option (Items Text × Text)
  read_items zero s = none
  read_items (suc fuel) s = read_value fuel s >>= λ r. after_item (read_items fuel) r.0 r.1

  pub read_members : ℕ → Text → Option (Members Text × Text)
  read_members zero s = none
  read_members (suc fuel) s = quoted_then s (λ k rest.
      colon_then rest (λ t. read_value fuel t >>= λ r. after_member (read_members fuel) k r.0 r.1))

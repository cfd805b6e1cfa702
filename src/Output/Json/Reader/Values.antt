-- ===== src/Output/Json/Reader/Values.antt =====
-- encoding/json's values are read back.
use amqp_routing_inspector.Base.{
  ℕ, zero, suc, ◌+◌, ◌≤◌, Bool, [], ◌∷◌, map, Option, some, ◌≡◌, refl, ap, ◌∙◌, arith, nat_eq,
}
use amqp_routing_inspector.Base.Text.{Text}
use amqp_routing_inspector.Output.Json.{
  Runes, valid, json_string, JsonValue, string, array, object, Items, no_items, item, Members,
  no_members, member, comma_items, comma_members, print_value, print_items, print_members,
}
use amqp_routing_inspector.Output.Json.Reader.{
  after_item, after_member, items_or_none, members_or_none, quoted_then, read_value, read_items,
  read_members,
}
use amqp_routing_inspector.Output.Json.Reader.Strings.{mended, read_runes}

-- The value that is read: each invalid byte has become U+FFFD.
unfoldable mutual
  pub mended_value : JsonValue Runes → JsonValue Text
  mended_value (string s) = string (map mended s)
  mended_value (array vs) = array (mended_items vs)
  mended_value (object ms) = object (mended_members ms)

  pub mended_items : Items Runes → Items Text
  mended_items no_items = no_items
  mended_items (item v vs) = item (mended_value v) (mended_items vs)

  pub mended_members : Members Runes → Members Text
  mended_members no_members = no_members
  mended_members (member k v ms) = member k (mended_value v) (mended_members ms)

unfoldable mutual
  pub size_value : JsonValue Runes → ℕ
  size_value (string s) = 1
  size_value (array vs) = 1 + size_items vs
  size_value (object ms) = 1 + size_members ms

  pub size_items : Items Runes → ℕ
  size_items no_items = 0
  size_items (item v vs) = 1 + (size_value v + size_items vs)

  pub size_members : Members Runes → ℕ
  size_members no_members = 0
  size_members (member k v ms) = 1 + (size_value v + size_members ms)

pub mended-valid : (s : Text) → map mended (valid s) ≡ s
mended-valid [] = refl
mended-valid (c ∷ s) = ap (◌∷◌ c) (mended-valid s)

quoted_then-json_string :
    {A : Type 0} (html : Bool) (s : Runes) (rest : Text) (next : Text → Text → Option A)
    → quoted_then (json_string html s rest) next ≡ next (map mended s) rest
unfolding json_string
quoted_then-json_string html s rest next = rw (read_runes html s rest)

quoted_then-key :
    {A : Type 0} (html : Bool) (k rest : Text) (next : Text → Text → Option A)
    → quoted_then (json_string html (valid k) rest) next ≡ next k rest
quoted_then-key html k rest next =
    quoted_then-json_string html (valid k) rest next ∙ ap (λ t. next t rest) (mended-valid k)

-- A value begins with none of the brackets that close.
items_or_none-print :
    (more : Text → Option (Items Text × Text)) (html : Bool) (v : JsonValue Runes) (rest : Text)
    → items_or_none more (print_value html v rest) ≡ more (print_value html v rest)
unfolding print_value json_string
items_or_none-print more html (string s) rest = refl
items_or_none-print more html (array vs) rest = refl
items_or_none-print more html (object ms) rest = refl

members_or_none-key :
    (more : Text → Option (Members Text × Text)) (html : Bool) (s : Runes) (rest : Text)
    → members_or_none more (json_string html s rest) ≡ more (json_string html s rest)
unfolding json_string
members_or_none-key more html s rest = refl

read_value-string :
    (html : Bool) (s : Runes) (fuel : ℕ) (rest : Text)
    → read_value (suc fuel) (json_string html s rest) ≡ some (string (map mended s), rest)
unfolding read_value json_string
read_value-string html s fuel rest = rw (read_runes html s rest)

-- Some item, some member.
abbrev IsFull : {S : Type 0} → Items S → Type 0
IsFull no_items = ⊥
IsFull (item v vs) = Unit {0}

abbrev HasMember : {S : Type 0} → Members S → Type 0
HasMember no_members = ⊥
HasMember (member k v ms) = Unit {0}

-- What follows an item is read, where the items behind it are.
after_item-print :
    (more : Text → Option (Items Text × Text)) (html : Bool) (w : JsonValue Text) (vs : Items Runes)
    (rest : Text)
    → (IsFull vs → more (print_items html vs (b']' ∷ rest)) ≡ some (mended_items vs, rest))
    → after_item more w (comma_items vs (print_items html vs (b']' ∷ rest)))
      ≡ some (item w (mended_items vs), rest)
unfolding mended_items
after_item-print more html w no_items rest ih = unfold print_items in refl
after_item-print more html w (item v vs) rest ih = rw (ih tt)

after_member-print :
    (more : Text → Option (Members Text × Text)) (html : Bool) (k : Text) (w : JsonValue Text)
    (ms : Members Runes) (rest : Text)
    → (HasMember ms → more (print_members html ms (b'}' ∷ rest)) ≡ some (mended_members ms, rest))
    → after_member more k w (comma_members ms (print_members html ms (b'}' ∷ rest)))
      ≡ some (member k w (mended_members ms), rest)
unfolding mended_members
after_member-print more html k w no_members rest ih = unfold print_members in refl
after_member-print more html k w (member j v ms) rest ih = rw (ih tt)

items_or_none-items :
    (more : Text → Option (Items Text × Text)) (html : Bool) (vs : Items Runes) (rest : Text)
    → (IsFull vs → more (print_items html vs (b']' ∷ rest)) ≡ some (mended_items vs, rest))
    → items_or_none more (print_items html vs (b']' ∷ rest)) ≡ some (mended_items vs, rest)
items_or_none-items more html no_items rest ih = unfold print_items mended_items in refl
items_or_none-items more html (item v vs) rest ih =
    unfold print_items in
    items_or_none-print more html v (comma_items vs (print_items html vs (b']' ∷ rest))) ∙ ih tt

members_or_none-members :
    (more : Text → Option (Members Text × Text)) (html : Bool) (ms : Members Runes) (rest : Text)
    → (HasMember ms → more (print_members html ms (b'}' ∷ rest)) ≡ some (mended_members ms, rest))
    → members_or_none more (print_members html ms (b'}' ∷ rest)) ≡ some (mended_members ms, rest)
members_or_none-members more html no_members rest ih = unfold print_members mended_members in refl
members_or_none-members more html (member k v ms) rest ih =
    unfold print_members in members_or_none-key more html (valid k) _ ∙ ih tt

mutual
  unfolding read_value print_value mended_value size_value

  read_print :
      (html : Bool) (v : JsonValue Runes) (fuel : ℕ) (rest : Text)
      → size_value v ≤ fuel
      → read_value fuel (print_value html v rest) ≡ some (mended_value v, rest)
  read_print html (string s) zero rest h = absurd (omega arith)
  read_print html (array vs) zero rest h = absurd (omega arith)
  read_print html (object ms) zero rest h = absurd (omega arith)
  read_print html (string s) (suc fuel) rest h = read_value-string html s fuel rest
  read_print html (array vs) (suc fuel) rest h = rw (
      items_or_none-items (read_items fuel) html vs rest
        (read_print_items html vs fuel rest (omega arith)))
  read_print html (object ms) (suc fuel) rest h = rw (
      members_or_none-members (read_members fuel) html ms rest
        (read_print_members html ms fuel rest (omega arith)))

  read_print_items :
      (html : Bool) (vs : Items Runes) (fuel : ℕ) (rest : Text)
      → size_items vs ≤ fuel
      → IsFull vs
      → read_items fuel (print_items html vs (b']' ∷ rest)) ≡ some (mended_items vs, rest)
  read_print_items html no_items fuel rest h full = absurd full
  read_print_items html (item v vs) zero rest h full = absurd (omega arith)
  read_print_items html (item v vs) (suc fuel) rest h full =
      rw (read_print html v fuel (comma_items vs (print_items html vs (b']' ∷ rest))) (omega arith))
        (after_item-print (read_items fuel) html (mended_value v) vs rest
          (read_print_items html vs fuel rest (omega arith)))

  read_print_members :
      (html : Bool) (ms : Members Runes) (fuel : ℕ) (rest : Text)
      → size_members ms ≤ fuel
      → HasMember ms
      → read_members fuel (print_members html ms (b'}' ∷ rest)) ≡ some (mended_members ms, rest)
  read_print_members html no_members fuel rest h full = absurd full
  read_print_members html (member k v ms) zero rest h full = absurd (omega arith)
  read_print_members html (member k v ms) (suc fuel) rest h full =
      quoted_then-key html k _ _
      ∙ rw
          (read_print html v fuel (comma_members ms (print_members html ms (b'}' ∷ rest)))
            (omega arith))
          (after_member-print (read_members fuel) html k (mended_value v) ms rest
            (read_print_members html ms fuel rest (omega arith)))

-- With fuel for its size a value is read back from what encoding/json prints, whatever follows.
pub read_value-print :
    (html : Bool) (v : JsonValue Runes) (fuel : ℕ) (rest : Text)
    → size_value v ≤ fuel
    → read_value fuel (print_value html v rest) ≡ some (mended_value v, rest)
read_value-print html v fuel rest h = read_print html v fuel rest h

-- ===== src/Output/Json/Printed.antt =====
-- The texts that encoding/json prints: their length, and their runes.
use amqp_routing_inspector.Base.{
  ℕ, zero, suc, ◌+◌, ◌/◌, ◌%◌, ◌≤◌, Bool, false, inl, inr, [], ◌∷◌, Option, none, some, ◌≡◌, ◌≢◌,
  arith, nat_eq, ◌==◌, length, All, Bool-cases,
}
use amqp_routing_inspector.Base.Text.{Text}
use amqp_routing_inspector.Base.Text.Quote.{hex_digit, hex}
use amqp_routing_inspector.Output.Json.{
  Runes, valid, unicode_escape, json_letter, by_number, json_rune, json_runes, json_string,
  JsonValue, string, array, object, Items, no_items, item, Members, no_members, member, comma_items,
  comma_members, print_value, print_items, print_members,
}
use amqp_routing_inspector.Output.Json.Reader.Values.{size_value, size_items, size_members}

-- No control character: no line feed, no carriage return, no tab.
abbrev pub IsOneLine : Text → Type 0
IsOneLine = All (λ c. 0x20 ≤ c)

hex_digit-le : (n : ℕ) → 0x20 ≤ hex_digit n
unfolding hex_digit
hex_digit-le n = ground arith

hex-IsOneLine : (width c : ℕ) (rest : Text) → IsOneLine rest → IsOneLine (hex width c rest)
unfolding hex
hex-IsOneLine zero c rest a = a
hex-IsOneLine (suc width) c rest a =
    hex-IsOneLine width (c / 16) (hex_digit (c % 16) ∷ rest) (hex_digit-le (c % 16), a)

json_letter-le : (c : ℕ) → json_letter c ≢ 0 → 0x20 ≤ json_letter c
unfolding json_letter
json_letter-le c h = ground arith

by_number-le : (html : Bool) (c : ℕ) → by_number html c ≡ false → 0x20 ≤ c
unfolding by_number
by_number-le html c h = ground arith

json_rune-IsOneLine :
    (html : Bool) (c : Option ℕ) (rest : Text) → IsOneLine rest → IsOneLine (json_rune html c rest)
unfolding json_rune unicode_escape
json_rune-IsOneLine html none rest a = (omega arith, (omega arith, hex-IsOneLine 4 0xFFFD rest a))
json_rune-IsOneLine html (some c) rest a = elim (Bool-cases (json_letter c == 0)) [
  | inl q ↦ elim (Bool-cases (by_number html c)) [
    | inl p ↦ rw (q, p) (omega arith, (omega arith, hex-IsOneLine 4 c rest a))
    | inr p ↦ rw (q, p) (by_number-le html c p, a)
  ]
  | inr q ↦ rw q (omega arith, (json_letter-le c (ground arith), a))
]

json_runes-IsOneLine :
    (html : Bool) (s : Runes) (rest : Text) → IsOneLine rest → IsOneLine (json_runes html s rest)
unfolding json_runes
json_runes-IsOneLine html [] rest a = a
json_runes-IsOneLine html (c ∷ s) rest a =
    json_rune-IsOneLine html c (json_runes html s rest) (json_runes-IsOneLine html s rest a)

json_string-IsOneLine :
    (html : Bool) (s : Runes) (rest : Text) → IsOneLine rest → IsOneLine (json_string html s rest)
unfolding json_string
json_string-IsOneLine html s rest a = (omega arith, json_runes-IsOneLine html s _ (omega arith, a))

comma_items-IsOneLine :
    {S : Type 0} (vs : Items S) (rest : Text) → IsOneLine rest → IsOneLine (comma_items vs rest)
comma_items-IsOneLine no_items rest a = a
comma_items-IsOneLine (item v vs) rest a = (omega arith, a)

comma_members-IsOneLine :
    {S : Type 0} (ms : Members S) (rest : Text) → IsOneLine rest → IsOneLine (comma_members ms rest)
comma_members-IsOneLine no_members rest a = a
comma_members-IsOneLine (member k v ms) rest a = (omega arith, a)

mutual
  unfolding print_value

  print-IsOneLine :
      (html : Bool) (v : JsonValue Runes) (rest : Text)
      → IsOneLine rest
      → IsOneLine (print_value html v rest)
  print-IsOneLine html (string s) rest a = json_string-IsOneLine html s rest a
  print-IsOneLine html (array vs) rest a =
      (omega arith, print_items-IsOneLine html vs (b']' ∷ rest) (omega arith, a))
  print-IsOneLine html (object ms) rest a =
      (omega arith, print_members-IsOneLine html ms (b'}' ∷ rest) (omega arith, a))

  print_items-IsOneLine :
      (html : Bool) (vs : Items Runes) (rest : Text)
      → IsOneLine rest
      → IsOneLine (print_items html vs rest)
  print_items-IsOneLine html no_items rest a = a
  print_items-IsOneLine html (item v vs) rest a =
      print-IsOneLine html v _ (comma_items-IsOneLine vs _ (print_items-IsOneLine html vs rest a))

  print_members-IsOneLine :
      (html : Bool) (ms : Members Runes) (rest : Text)
      → IsOneLine rest
      → IsOneLine (print_members html ms rest)
  print_members-IsOneLine html no_members rest a = a
  print_members-IsOneLine html (member k v ms) rest a = json_string-IsOneLine html (valid k) _ (
    omega arith,
    print-IsOneLine html v _
        (comma_members-IsOneLine ms _ (print_members-IsOneLine html ms rest a)),
  )

-- A value's text is on one line.
pub print_value-IsOneLine : (html : Bool) (v : JsonValue Runes) → IsOneLine (print_value html v [])
print_value-IsOneLine html v = print-IsOneLine html v [] tt

hex_longer : (width c : ℕ) (rest : Text) → length rest ≤ length (hex width c rest)
unfolding hex
hex_longer zero c rest = omega arith
hex_longer (suc width) c rest = omega (arith, hex_longer width (c / 16) (hex_digit (c % 16) ∷ rest))

json_rune_longer :
    (html : Bool) (c : Option ℕ) (rest : Text) → length rest ≤ length (json_rune html c rest)
unfolding json_rune unicode_escape
json_rune_longer html none rest = omega (arith, hex_longer 4 0xFFFD rest)
json_rune_longer html (some c) rest = ground (arith, hex_longer 4 c rest)

json_runes_longer :
    (html : Bool) (s : Runes) (rest : Text) → length rest ≤ length (json_runes html s rest)
unfolding json_runes
json_runes_longer html [] rest = omega arith
json_runes_longer html (c ∷ s) rest =
    omega (arith, json_rune_longer html c (json_runes html s rest), json_runes_longer html s rest)

json_string_longer :
    (html : Bool) (s : Runes) (rest : Text) → 2 + length rest ≤ length (json_string html s rest)
unfolding json_string
json_string_longer html s rest = omega (arith, json_runes_longer html s (b'"' ∷ rest))

comma_items_longer :
    {S : Type 0} (vs : Items S) (rest : Text) → length rest ≤ length (comma_items vs rest)
comma_items_longer no_items rest = omega arith
comma_items_longer (item v vs) rest = omega arith

comma_members_longer :
    {S : Type 0} (ms : Members S) (rest : Text) → length rest ≤ length (comma_members ms rest)
comma_members_longer no_members rest = omega arith
comma_members_longer (member k v ms) rest = omega arith

mutual
  unfolding print_value size_value

  print_longer :
      (html : Bool) (v : JsonValue Runes) (rest : Text)
      → size_value v + 1 + length rest ≤ length (print_value html v rest)
  print_longer html (string s) rest = omega (arith, json_string_longer html s rest)
  print_longer html (array vs) rest = omega (arith, print_items_longer html vs (b']' ∷ rest))
  print_longer html (object ms) rest = omega (arith, print_members_longer html ms (b'}' ∷ rest))

  print_items_longer :
      (html : Bool) (vs : Items Runes) (rest : Text)
      → size_items vs + length rest ≤ length (print_items html vs rest)
  print_items_longer html no_items rest = omega arith
  print_items_longer html (item v vs) rest = omega (
    arith,
    print_longer html v (comma_items vs (print_items html vs rest)),
    comma_items_longer vs (print_items html vs rest),
    print_items_longer html vs rest,
  )

  print_members_longer :
      (html : Bool) (ms : Members Runes) (rest : Text)
      → size_members ms + length rest ≤ length (print_members html ms rest)
  print_members_longer html no_members rest = omega arith
  print_members_longer html (member k v ms) rest = omega (
    arith,
    json_string_longer html (valid k)
        (b':' ∷ print_value html v (comma_members ms (print_members html ms rest))),
    print_longer html v (comma_members ms (print_members html ms rest)),
    comma_members_longer ms (print_members html ms rest),
    print_members_longer html ms rest,
  )

-- The length of a value's text is fuel enough to read it.
pub size_value-le :
    (html : Bool) (v : JsonValue Runes) → size_value v ≤ length (print_value html v [])
size_value-le html v = omega (arith, print_longer html v [])

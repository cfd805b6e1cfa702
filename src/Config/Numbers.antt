-- ===== src/Config/Numbers.antt =====
-- strconv.Atoi and strconv.ParseBool of the standard library, which internal/config/config.go calls.
pub mod Roundtrip
use amqp_routing_inspector.Base.{
  ℕ, zero, suc, ◌+◌, ◌-◌, ◌*◌, ◌^◌, Bool, true, false, ◌&&◌, ◌||◌, List, [], ◌∷◌, Option, none,
  some, nat_eq, list_eq, ◌==◌, ltb, leb, any, ◌>>=◌, if◌then◌else◌,
}
use amqp_routing_inspector.Base.Int.{ℤ, pos, negsuc}
use amqp_routing_inspector.Base.Text.{Text, codes}

abbrev pub is_digit : ℕ → Bool
is_digit c = leb b'0' c && leb c b'9'

-- The number that the digits of a text stand for, behind those that gave `n`.
unfoldable pub read_digits : ℕ → Text → Option ℕ
read_digits n [] = some n
read_digits n (c ∷ s) =
    let rest = read_digits (n * 10 + (c - b'0')) s in if is_digit c then rest else none

-- At least one digit.
unfoldable pub read_number : Text → Option ℕ
unfolding read_digits
read_number [] = none
read_number (c ∷ s) = read_digits 0 (c ∷ s)

-- -n
abbrev pub negative : ℕ → ℤ
negative zero = pos 0
negative (suc n) = negsuc n

abbrev within : Bool → ℤ → Option ℤ
within fits z = if fits then some z else none

-- strconv.Atoi: `none` is a syntax error or a value out of the range of an int.
unfoldable pub atoi : Text → Option ℤ
unfolding read_number
atoi [] = none
atoi (c ∷ s) =
    if c == b'-'
    then (do n ← read_number s; within (leb n (2 ^ 63)) (negative n))
    else (do n ← read_number (if c == b'+' then s else c ∷ s); within (ltb n (2 ^ 63)) (pos n))

abbrev trues : List Text
trues = codes "1" ∷ codes "t" ∷ codes "T" ∷ codes "TRUE" ∷ codes "true" ∷ codes "True" ∷ []

abbrev falses : List Text
falses = codes "0" ∷ codes "f" ∷ codes "F" ∷ codes "FALSE" ∷ codes "false" ∷ codes "False" ∷ []

-- strconv.ParseBool
unfoldable pub parse_bool : Text → Option Bool
parse_bool s =
    if any (λ t. s == t) trues
    then some true
    else if any (λ t. s == t) falses
    then some false
    else none

-- ===== src/Base/Decimal.antt =====
-- Decimal notation, as fmt prints it by %d, and the 64-bit counters of the program.
use Prim.Native.Nat.{ℕ, zero, suc, ◌+◌, ◌-◌, ◌/◌, ◌%◌, ◌^◌}
use mathlib.Core.List.{[], ◌∷◌}
use amqp_routing_inspector.Base.Tests.{ltb, if◌then◌else◌}
use amqp_routing_inspector.Base.Int.{ℤ, pos, negsuc}
use amqp_routing_inspector.Base.Text.{Text}

-- The digits of `n` before `rest`; the fuel `n + 1` is enough, since each round divides by ten.
unfoldable pub digits : ℕ → ℕ → Text → Text
digits zero n rest = rest
digits (suc f) n rest =
    let more = digits f (n / 10) ((b'0' + n % 10) ∷ rest) in
    if ltb n 10 then (b'0' + n) ∷ rest else more

unfoldable pub print_nat : ℕ → Text
unfolding digits
print_nat n = digits (suc n) n []

-- The bit patterns of a 64-bit word.
abbrev pub word : ℕ
word = 2 ^ 64

-- The int64 with a bit pattern.
abbrev pub signed : ℕ → ℤ
signed m = if ltb m (2 ^ 63) then pos m else negsuc (word - 1 - m)

-- `count++` on an int or int64, as a bit pattern: it wraps around.
unfoldable pub increment : ℕ → ℕ
increment n = (n + 1) % word

-- %d of an int64, given by its bit pattern: from 2^63 on it is negative.
unfoldable pub print_int64 : ℕ → Text
unfolding print_nat
print_int64 n = if ltb n (2 ^ 63) then print_nat n else b'-' ∷ print_nat (word - n)

-- ===== src/Config/Numbers/Roundtrip.antt =====
-- strconv.Atoi reads what fmt prints for an int by %d.
use amqp_routing_inspector.Base.{
  ℕ, zero, suc, ◌+◌, ◌-◌, ◌*◌, ◌/◌, ◌%◌, ◌^◌, ◌≤◌, ◌<◌, inl, inr, true, false, [], ◌∷◌, ◌≡◌, refl,
  ap, ◌∙◌, some, nat_eq, list_eq, ◌==◌, ltb, arith, Bool-cases,
}
use amqp_routing_inspector.Base.Int.{pos, negsuc}
use amqp_routing_inspector.Base.Text.{Text}
use amqp_routing_inspector.Base.Decimal.{digits, print_nat, print_int64, signed, word}
use amqp_routing_inspector.Config.Numbers.{is_digit, read_digits, read_number, atoi, negative}

digit_is : (d : ℕ) → d < 10 → is_digit (b'0' + d) ≡ true
digit_is d h = ground arith

read_digit :
    (n d : ℕ) (rest : Text)
    → d < 10
    → read_digits n ((b'0' + d) ∷ rest) ≡ read_digits (n * 10 + d) rest
unfolding read_digits
read_digit n d rest h = rw (digit_is d h) (ap (λ (k : ℕ). read_digits k rest) (omega arith))

read_digits-digits :
    (f n : ℕ) (rest : Text) → n < f → read_digits 0 (digits f n rest) ≡ read_digits n rest
unfolding digits
read_digits-digits zero n rest h = absurd (omega arith)
read_digits-digits (suc f) n rest h = elim (Bool-cases (ltb n 10)) [
  | inl e ↦
      rw e (read_digit 0 n rest (ground arith) ∙ ap (λ (k : ℕ). read_digits k rest) (omega arith))
  | inr e ↦ rw e (
      read_digits-digits f (n / 10) ((b'0' + n % 10) ∷ rest) (ground arith)
      ∙ read_digit (n / 10) (n % 10) rest (omega arith)
      ∙ ap (λ (k : ℕ). read_digits k rest) (omega arith))
]

-- The text begins with a digit.
digits-cons :
    (f n : ℕ) (rest : Text)
    → (c : ℕ) × (s : Text) × (digits (suc f) n rest ≡ c ∷ s) × (is_digit c ≡ true)
unfolding digits
digits-cons zero n rest = elim (Bool-cases (ltb n 10)) [
  | inl e ↦ (b'0' + n, rest, rw e refl, digit_is n (ground arith))
  | inr e ↦ (b'0' + n % 10, rest, rw e refl, digit_is (n % 10) (omega arith))
]
digits-cons (suc f) n rest = elim (Bool-cases (ltb n 10)) [
  | inl e ↦ (b'0' + n, rest, rw e refl, digit_is n (ground arith))
  | inr e ↦ let (c, s, p, d) = digits-cons f (n / 10) ((b'0' + n % 10) ∷ rest) in (c, s, rw e p, d)
]

read_number_cons : (t : Text) (c : ℕ) (s : Text) → t ≡ c ∷ s → read_number t ≡ read_digits 0 t
unfolding read_number
read_number_cons t c s e = rw e refl

read_number-print_nat : (n : ℕ) → read_number (print_nat n) ≡ some n
unfolding print_nat
read_number-print_nat n =
    let (c, s, e, d) = digits-cons n n [] in
    read_number_cons (digits (suc n) n []) c s e
    ∙ read_digits-digits (suc n) n [] (omega arith)
    ∙ unfold read_digits in refl

print_nat-cons : (n : ℕ) → (c : ℕ) × (s : Text) × (print_nat n ≡ c ∷ s) × (is_digit c ≡ true)
unfolding print_nat
print_nat-cons n = digits-cons n n []

digit_no_sign : (c : ℕ) → is_digit c ≡ true → ((c == b'-') ≡ false) × ((c == b'+') ≡ false)
digit_no_sign c h = ground arith

atoi_unsigned :
    (t : Text) (c : ℕ) (s : Text) (n : ℕ)
    → t ≡ c ∷ s
    → is_digit c ≡ true
    → read_number t ≡ some n
    → n < 2 ^ 63
    → atoi t ≡ some (pos n)
unfolding atoi
atoi_unsigned t c s n e d r h =
    let (minus, plus) = digit_no_sign c d in rw (e, minus, plus, rw e at r) (ground arith)

atoi-negative :
    (t : Text) (n : ℕ) → read_number t ≡ some n → n ≤ 2 ^ 63 → atoi (b'-' ∷ t) ≡ some (negative n)
unfolding atoi
atoi-negative t n r h = rw r (ground arith)

negative_signed : (n : ℕ) → 2 ^ 63 ≤ n → n < word → negative (word - n) ≡ negsuc (word - 1 - n)
negative_signed n h k = let e : word - n ≡ suc (word - 1 - n) = omega arith in rw e refl

-- Atoi reads back every int that fmt prints, given by its bit pattern.
atoi-print_int64 : (n : ℕ) → n < word → atoi (print_int64 n) ≡ some (signed n)
unfolding print_int64
atoi-print_int64 n h = elim (Bool-cases (ltb n (2 ^ 63))) [
  | inl e ↦
      let (c, s, p, d) = print_nat-cons n in
      rw e (atoi_unsigned (print_nat n) c s n p d (read_number-print_nat n) (ground arith))
  | inr e ↦ rw e (
      atoi-negative (print_nat (word - n)) (word - n) (read_number-print_nat (word - n))
        (ground arith)
      ∙ ap some (negative_signed n (ground arith) h))
]

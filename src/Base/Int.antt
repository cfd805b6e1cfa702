-- ===== src/Base/Int.antt =====
-- Signed integers over the native numbers: Go's int and time.Duration, with the range written out
-- where the program can leave it.
use Prim.Native.Nat.{ℕ}
use mathlib.Core.Bool.{Bool, true, false}
use mathlib.Core.Path.{◌≡◌, refl}
use mathlib.Core.Logic.{◌≢◌, ◌↔◌, ◌⊎◌, inl, inr}
use native.Mathlib.Omega.{arith}
use amqp_routing_inspector.Base.Tests.{ltb, nat_eqb, Key}

-- `negsuc n` is -(n + 1).
pub data ℤ : Type 0 where
  pos : ℕ → ℤ
  negsuc : ℕ → ℤ

-- `a < b`
abbrev pub ltb_ℤ : ℤ → ℤ → Bool
ltb_ℤ (pos m) (pos n) = ltb m n
ltb_ℤ (pos m) (negsuc n) = false
ltb_ℤ (negsuc m) (pos n) = true
ltb_ℤ (negsuc m) (negsuc n) = ltb n m

-- `0 < a`
abbrev pub is_positive : ℤ → Bool
is_positive (pos n) = ltb 0 n
is_positive (negsuc n) = false

abbrev pub is_negative : ℤ → Bool
is_negative (pos n) = false
is_negative (negsuc n) = true

-- The number, or 0 below it.
abbrev pub to_ℕ : ℤ → ℕ
to_ℕ (pos n) = n
to_ℕ (negsuc n) = 0

-- `a == b`
abbrev pub eqb_ℤ : ℤ → ℤ → Bool
eqb_ℤ (pos m) (pos n) = nat_eqb m n
eqb_ℤ (negsuc m) (negsuc n) = nat_eqb m n
eqb_ℤ _ _ = false

pub eqb_ℤ_iff : (a b : ℤ) → (eqb_ℤ a b ≡ true) ↔ (a ≡ b)
eqb_ℤ_iff (pos m) (pos n) = ground arith
eqb_ℤ_iff (pos m) (negsuc n) = (λ h. cc, λ h. cc)
eqb_ℤ_iff (negsuc m) (pos n) = (λ h. cc, λ h. cc)
eqb_ℤ_iff (negsuc m) (negsuc n) = ground arith

instance abbrev pub int_eq : Key ℤ
int_eq = record { same = eqb_ℤ; same_iff = eqb_ℤ_iff }

pub ltb_ℤ_irrefl : (a : ℤ) → ltb_ℤ a a ≡ false
ltb_ℤ_irrefl (pos n) = ground arith
ltb_ℤ_irrefl (negsuc n) = ground arith

pub ltb_ℤ_trans : (a b c : ℤ) → ltb_ℤ a b ≡ true → ltb_ℤ b c ≡ true → ltb_ℤ a c ≡ true
ltb_ℤ_trans (pos a) (pos b) (pos c) p q = ground arith
ltb_ℤ_trans (pos a) (pos b) (negsuc c) p q = cc
ltb_ℤ_trans (pos a) (negsuc b) c p q = cc
ltb_ℤ_trans (negsuc a) (pos b) (pos c) p q = refl
ltb_ℤ_trans (negsuc a) (pos b) (negsuc c) p q = cc
ltb_ℤ_trans (negsuc a) (negsuc b) (pos c) p q = refl
ltb_ℤ_trans (negsuc a) (negsuc b) (negsuc c) p q = ground arith

-- Of two different numbers one is the smaller.
pub ltb_ℤ_connected : (a b : ℤ) → a ≢ b → (ltb_ℤ a b ≡ true) ⊎ (ltb_ℤ b a ≡ true)
ltb_ℤ_connected (pos a) (pos b) h = ground arith
ltb_ℤ_connected (pos a) (negsuc b) h = inr refl
ltb_ℤ_connected (negsuc a) (pos b) h = inl refl
ltb_ℤ_connected (negsuc a) (negsuc b) h = ground arith

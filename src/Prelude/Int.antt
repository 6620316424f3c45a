-- ===== src/Prelude/Int.antt =====
-- A C int as a call returns it: `negsuc n` is -(n + 1).
use Prim.Native.Nat.{ℕ, zero, suc, ◌-◌, ◌%◌}
use mathlib.Core.Bool.{Bool, true, false, ◌||◌}
use distributed_ascii_server.Prelude.Tests.{leb, ◌==◌, Bool-cases}
use mathlib.Core.Path.{◌≡◌}
use mathlib.Core.Logic.{◌≢◌, inl, inr}
use native.Mathlib.Omega.{arith}

pub data ℤ : Type 0 where
  pos : ℕ → ℤ
  negsuc : ℕ → ℤ

abbrev pub minus_one : ℤ
minus_one = negsuc 0

abbrev pub is_minus_one : ℤ → Bool
is_minus_one (pos n) = false
is_minus_one (negsuc zero) = true
is_minus_one (negsuc (suc n)) = false

abbrev pub is_zero : ℤ → Bool
is_zero (pos zero) = true
is_zero (pos (suc n)) = false
is_zero (negsuc n) = false

-- n < 0
abbrev pub is_negative : ℤ → Bool
is_negative (pos n) = false
is_negative (negsuc n) = true

-- n <= 0
abbrev pub is_at_most_zero : ℤ → Bool
is_at_most_zero (pos zero) = true
is_at_most_zero (pos (suc n)) = false
is_at_most_zero (negsuc n) = true

-- (size_t) n
abbrev pub to_size : ℤ → ℕ
to_size (pos n) = n
to_size (negsuc n) = 18446744073709551615 - n

-- (int) n <= 0, for a size_t
abbrev pub is_at_most_zero_int : ℕ → Bool
is_at_most_zero_int n = n % 4294967296 == 0 || leb 2147483648 (n % 4294967296)

abbrev pub eq_int : ℤ → ℤ → Bool
eq_int (pos a) (pos b) = a == b
eq_int (negsuc a) (negsuc b) = a == b
eq_int _ _ = false

pub eq_int_sound : (a b : ℤ) → eq_int a b ≡ true → a ≡ b
eq_int_sound (pos a) (pos b) h = ground arith
eq_int_sound (negsuc a) (negsuc b) h = ground arith
eq_int_sound (pos a) (negsuc b) h = cc
eq_int_sound (negsuc a) (pos b) h = cc

pub eq_int_self : (a : ℤ) → eq_int a a ≡ true
eq_int_self (pos a) = ground arith
eq_int_self (negsuc a) = ground arith

pub eq_int_ne : (a b : ℤ) → a ≢ b → eq_int a b ≡ false
eq_int_ne a b h = elim (Bool-cases (eq_int a b)) [
  | inl e ↦ absurd (h (eq_int_sound a b e))
  | inr e ↦ e
]

-- ===== src/Nachos/BitMap/Words.antt =====
-- Single bits of a word: what setting and clearing one does to each.
use distributed_ascii_server.Prelude.{
  ℕ, zero, suc, ◌/◌, ◌≡◌, ◌≢◌, refl, ap, ◌∙◌, true, false, arith, ◌==◌, eq→==, ne→==,
}
use distributed_ascii_server.Nachos.BitMap.{set_bit, clear_bit, test_bit}

pub test_bit-set_bit_self : (word k : ℕ) → test_bit (set_bit word k) k ≡ true
unfolding test_bit set_bit
test_bit-set_bit_self word zero = eq→== _ _ (omega arith)
test_bit-set_bit_self word (suc k) =
    ap (λ (w : ℕ). test_bit w k) (omega arith) ∙ test_bit-set_bit_self (word / 2) k

pub test_bit-clear_bit_self : (word k : ℕ) → test_bit (clear_bit word k) k ≡ false
unfolding test_bit clear_bit
test_bit-clear_bit_self word zero = ne→== _ _ (omega arith)
test_bit-clear_bit_self word (suc k) =
    ap (λ (w : ℕ). test_bit w k) (omega arith) ∙ test_bit-clear_bit_self (word / 2) k

pub test_bit-set_bit_ne : (word k j : ℕ) → k ≢ j → test_bit (set_bit word k) j ≡ test_bit word j
unfolding test_bit set_bit
test_bit-set_bit_ne word zero zero h = absurd (h refl)
test_bit-set_bit_ne word zero (suc j) h = ap (λ (w : ℕ). test_bit w j) (omega arith)
test_bit-set_bit_ne word (suc k) zero h = ap (λ (r : ℕ). r == 1) (omega arith)
test_bit-set_bit_ne word (suc k) (suc j) h =
    ap (λ (w : ℕ). test_bit w j) (omega arith)
    ∙ test_bit-set_bit_ne (word / 2) k j (λ e. h (ap suc e))

pub test_bit-clear_bit_ne : (word k j : ℕ) → k ≢ j → test_bit (clear_bit word k) j ≡ test_bit word j
unfolding test_bit clear_bit
test_bit-clear_bit_ne word zero zero h = absurd (h refl)
test_bit-clear_bit_ne word zero (suc j) h = ap (λ (w : ℕ). test_bit w j) (omega arith)
test_bit-clear_bit_ne word (suc k) zero h = ap (λ (r : ℕ). r == 1) (omega arith)
test_bit-clear_bit_ne word (suc k) (suc j) h =
    ap (λ (w : ℕ). test_bit w j) (omega arith)
    ∙ test_bit-clear_bit_ne (word / 2) k j (λ e. h (ap suc e))

-- ===== src/Nachos/BitMap.antt =====
-- userprog/bitmap.cc: an array of bits in 32-bit words.
pub mod Words
pub mod Laws
use distributed_ascii_server.Prelude.{
  ℕ, zero, suc, ◌+◌, ◌-◌, ◌*◌, ◌/◌, ◌%◌, Bool, true, false, not, Option, none, some, List, [], ◌∷◌,
  ltb, ◌==◌, if◌then◌else◌, get_or, set, replicate,
}
use distributed_ascii_server.Nachos.Outcome.{Outcome, ok, assert_failed, ◌>>=◌, minus_one}

-- word | 1 << k, word & ~(1 << k) and word & (1 << k) != 0, by the binary digits of the word.
unfoldable pub set_bit : ℕ → ℕ → ℕ
set_bit word zero = word - word % 2 + 1
set_bit word (suc k) = set_bit (word / 2) k * 2 + word % 2

unfoldable pub clear_bit : ℕ → ℕ → ℕ
clear_bit word zero = word - word % 2
clear_bit word (suc k) = clear_bit (word / 2) k * 2 + word % 2

unfoldable pub test_bit : ℕ → ℕ → Bool
test_bit word zero = word % 2 == 1
test_bit word (suc k) = test_bit (word / 2) k

pub record BitMap : Type 0 where
  pub num_bits : ℕ
  pub map : List ℕ

-- BitsInWord is 32. The constructor clears every bit of the new words, whatever they hold: `garbage`
-- is what the allocator returns.
unfoldable pub clear : BitMap → ℕ → Outcome BitMap
clear b which =
    if ltb which b.num_bits
    then ok (record b {
      map = set b.map (which / 32) (clear_bit (get_or b.map (which / 32) 0) (which % 32));
    })
    else assert_failed

unfoldable pub mark : BitMap → ℕ → Outcome BitMap
mark b which =
    if ltb which b.num_bits
    then ok (record b {
      map = set b.map (which / 32) (set_bit (get_or b.map (which / 32) 0) (which % 32));
    })
    else assert_failed

-- The bit itself, and Test with its assertion.
unfoldable pub bit : BitMap → ℕ → Bool
bit b which = test_bit (get_or b.map (which / 32) 0) (which % 32)

unfoldable pub test : BitMap → ℕ → Outcome Bool
test b which = if ltb which b.num_bits then ok (bit b which) else assert_failed

-- for (i = 0; i < numBits; i++) Clear(i);
unfoldable pub clear_loop : ℕ → ℕ → BitMap → Outcome BitMap
clear_loop zero i b = ok b
clear_loop (suc rounds) i b = clear b i >>= λ b'. clear_loop rounds (suc i) b'

unfoldable pub new_bit_map : ℕ → List ℕ → Outcome BitMap
new_bit_map nitems garbage = clear_loop nitems 0 (record { num_bits = nitems; map = garbage })

-- The loop of Find from bit `i`, with `rounds` bits left.
unfoldable pub find_loop : ℕ → ℕ → BitMap → Outcome (ℕ × BitMap)
find_loop zero i b = ok (minus_one, b)
find_loop (suc rounds) i b =
    let rest = find_loop rounds (suc i) b in
    test b i >>= λ used. if not used then (mark b i >>= λ b'. ok (i, b')) else rest

unfoldable pub find : BitMap → Outcome (ℕ × BitMap)
find b = find_loop b.num_bits 0 b

unfoldable pub clear_count : ℕ → ℕ → BitMap → ℕ → Outcome ℕ
clear_count zero i b count = ok count
clear_count (suc rounds) i b count =
    test b i >>= λ used. clear_count rounds (suc i) b (if used then count else count + 1)

unfoldable pub num_clear : BitMap → Outcome ℕ
num_clear b = clear_count b.num_bits 0 b 0

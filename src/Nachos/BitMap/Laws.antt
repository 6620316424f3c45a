-- ===== src/Nachos/BitMap/Laws.antt =====
-- The bit map as a set of numbers: what Mark, Clear and Find do to it.
use distributed_ascii_server.Prelude.{
  ℕ, zero, suc, ◌+◌, ◌*◌, ◌/◌, ◌%◌, ◌≤◌, ◌<◌, ◌≡◌, ◌≢◌, refl, sym, ap, ◌∙◌, inl, inr, Bool, true,
  false, List, arith, ltb, ◌==◌, if◌then◌else◌, length, get_or, set, length-set, get_or-set_self,
  get_or-set_ne, Bool-cases, lt→ltb, ltb→lt, ltb→le, ==→eq, ==→ne,
}
use distributed_ascii_server.Nachos.Outcome.{ok, minus_one}
use distributed_ascii_server.Nachos.BitMap.{
  BitMap, set_bit, clear_bit, test_bit, mark, clear, bit, test, find_loop, find,
}
use distributed_ascii_server.Nachos.BitMap.Words.{
  test_bit-set_bit_self, test_bit-clear_bit_self, test_bit-set_bit_ne, test_bit-clear_bit_ne,
}

-- There are words for all the bits, and an int can count them.
pub record IsSized (b : BitMap) : Type 0 where
  pub words : b.num_bits ≤ length b.map * 32
  pub countable : b.num_bits < 4294967295

-- Changing one bit of one word changes one bit of the map.
bit_change :
    (op : ℕ → ℕ → ℕ) (v : Bool)
    → ((word k : ℕ) → test_bit (op word k) k ≡ v)
    → ((word k j : ℕ) → k ≢ j → test_bit (op word k) j ≡ test_bit word j)
    → (words : List ℕ) (i : ℕ) → i / 32 < length words
    → (j : ℕ)
    → test_bit
        (get_or (set words (i / 32) (op (get_or words (i / 32) 0) (i % 32))) (j / 32) 0)
        (j % 32)
      ≡ (if i == j then v else test_bit (get_or words (j / 32) 0) (j % 32))
bit_change op v self other words i inside j = elim (Bool-cases (i == j)) [
  | inl same ↦
      let e : j ≡ i = sym (==→eq i j same) in
      rw (same, e, get_or-set_self words (i / 32) (op (get_or words (i / 32) 0) (i % 32)) 0 inside)
        (self _ _)
  | inr differ ↦ elim (Bool-cases ((i / 32) == (j / 32))) [
    | inl together ↦
        let e : j / 32 ≡ i / 32 = sym (==→eq _ _ together) in
        rw
          (
            differ,
            e,
            get_or-set_self words (i / 32) (op (get_or words (i / 32) 0) (i % 32)) 0 inside,
          )
          (other _ (i % 32) (j % 32) (λ q. ==→ne i j differ (omega arith)))
    | inr apart ↦
        rw
          (
            differ,
            get_or-set_ne words (i / 32) (j / 32) (op (get_or words (i / 32) 0) (i % 32)) 0
                (==→ne _ _ apart),
          )
          refl
  ]
]

module _ (b : BitMap) (sized : IsSized b) (i : ℕ) (inside : i < b.num_bits) where
  abbrev pub marked : BitMap
  marked = record b { map = set b.map (i / 32) (set_bit (get_or b.map (i / 32) 0) (i % 32)) }

  abbrev pub cleared : BitMap
  cleared = record b { map = set b.map (i / 32) (clear_bit (get_or b.map (i / 32) 0) (i % 32)) }

  pub mark_lem : mark b i ≡ ok marked
  unfolding mark
  mark_lem = rw (lt→ltb _ _ inside) refl

  pub clear_lem : clear b i ≡ ok cleared
  unfolding clear
  clear_lem = rw (lt→ltb _ _ inside) refl

  pub bit-marked : (j : ℕ) → bit marked j ≡ (if i == j then true else bit b j)
  unfolding bit
  bit-marked =
      bit_change set_bit true test_bit-set_bit_self test_bit-set_bit_ne b.map i
        (omega (arith, sized.words))

  pub bit-cleared : (j : ℕ) → bit cleared j ≡ (if i == j then false else bit b j)
  unfolding bit
  bit-cleared =
      bit_change clear_bit false test_bit-clear_bit_self test_bit-clear_bit_ne b.map i
        (omega (arith, sized.words))

  pub marked-IsSized : IsSized marked
  marked-IsSized = record {
    words = omega (
      arith,
      sized.words,
      length-set {0} b.map (i / 32) (set_bit (get_or b.map (i / 32) 0) (i % 32)),
    );
    countable = sized.countable;
  }

  pub cleared-IsSized : IsSized cleared
  cleared-IsSized = record {
    words = omega (
      arith,
      sized.words,
      length-set {0} b.map (i / 32) (clear_bit (get_or b.map (i / 32) 0) (i % 32)),
    );
    countable = sized.countable;
  }

-- What Find returns: the first bit that is clear, with that bit and no other set, or -1 and the same
-- map if every bit is set.
pub data Found (b : BitMap) : ℕ → BitMap → Type 0 where
  first :
      (i : ℕ) (b' : BitMap)
      → i < b.num_bits
      → bit b i ≡ false
      → ((j : ℕ) → j < i → bit b j ≡ true)
      → b'.num_bits ≡ b.num_bits
      → ((j : ℕ) → bit b' j ≡ (if i == j then true else bit b j))
      → IsSized b'
      → Found b i b'
  full : (i : ℕ) → i ≡ minus_one → ((j : ℕ) → j < b.num_bits → bit b j ≡ true) → Found b i b

find_loop-Found :
    (b : BitMap) (rounds i : ℕ)
    → IsSized b
    → i + rounds ≡ b.num_bits
    → ((j : ℕ) → j < i → bit b j ≡ true)
    → (k : ℕ) × (b' : BitMap) × (find_loop rounds i b ≡ ok (k, b')) × Found b k b'
unfolding find_loop test
find_loop-Found b zero i sized total below =
    (minus_one, b, refl, full minus_one refl (λ j h. below j (omega arith)))
find_loop-Found b (suc rounds) i sized total below = elim (Bool-cases (bit b i)) [
  | inr clear_here ↦
      let inside : i < b.num_bits = omega arith in
      (
        i,
        marked b sized i inside,
        rw (lt→ltb i b.num_bits inside, clear_here, mark_lem b sized i inside) refl,
        first i (marked b sized i inside) inside clear_here below refl (bit-marked b sized i inside)
            (marked-IsSized b sized i inside),
      )
  | inl used ↦
      let inside : i < b.num_bits = omega arith in
      let below' : (j : ℕ) → j < suc i → bit b j ≡ true = λ j h. elim (Bool-cases (ltb j i)) [
        | inl lt ↦ below j (ltb→lt _ _ lt)
        | inr ge ↦ ap (bit b) (omega (arith, ltb→le j i ge)) ∙ used
      ] in
      let (k, b', ran, found) = find_loop-Found b rounds (suc i) sized (omega arith) below' in
      (k, b', rw (lt→ltb i b.num_bits inside, used) ran, found)
]

-- Find never fails an assertion, and allocates the first clear bit.
pub find-Found :
    (b : BitMap) → IsSized b → (k : ℕ) × (b' : BitMap) × (find b ≡ ok (k, b')) × Found b k b'
unfolding find
find-Found b sized =
    find_loop-Found b b.num_bits 0 sized (omega arith) (λ j h. absurd (omega arith))

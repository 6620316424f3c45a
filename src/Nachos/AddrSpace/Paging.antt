-- ===== src/Nachos/AddrSpace/Paging.antt =====
-- The frames that a page table gets, and the physical addresses that it stands for.
use distributed_ascii_server.Prelude.{
  ℕ, zero, suc, ◌+◌, ◌*◌, ◌/◌, ◌%◌, ◌<◌, ◌≡◌, ◌≢◌, refl, sym, ap, ◌∙◌, subst, ◌⊎◌, inl, inr, Bool,
  true, false, ◌||◌, Option, none, some, List, [], ◌∷◌, arith, ◌==◌, if◌then◌else◌, length,
  get_elem?, Bool-cases, ==→eq, eq→==,
}
use distributed_ascii_server.Nachos.Outcome.{ok, minus_one}
use distributed_ascii_server.Nachos.BitMap.{BitMap, bit, find}
use distributed_ascii_server.Nachos.BitMap.Laws.{IsSized, Found, first, full, find-Found}
use distributed_ascii_server.Nachos.AddrSpace.{TranslationEntry, find_pages}

-- The frame of page `i`.
abbrev pub frame_of : Option TranslationEntry → ℕ
frame_of none = minus_one
frame_of (some e) = e.physical_page

abbrev pub frame : List TranslationEntry → ℕ → ℕ
frame table i = frame_of (get_elem? table i)

-- Where the machine finds virtual address `v`.
abbrev pub physical : List TranslationEntry → ℕ → ℕ
physical table v = frame table (v / 128) * 128 + v % 128

abbrev pub has_frame : ℕ → List TranslationEntry → Bool
has_frame k [] = false
has_frame k (e ∷ table) = (e.physical_page == k) || has_frame k table

-- Every page has a frame of its own.
pub record IsMapped (table : List TranslationEntry) : Type 0 where
  pub inside : (i : ℕ) → i < length table → frame table i < 32
  pub apart :
      (i j : ℕ) → i < length table → j < length table → frame table i ≡ frame table j → i ≡ j

-- How the map of frames is after a table's frames are taken from it.
pub record Taken (b : BitMap) (table : List TranslationEntry) (b' : BitMap) : Type 0 where
  pub sized : IsSized b'
  pub same_bits : b'.num_bits ≡ b.num_bits
  pub bits : (j : ℕ) → j < b.num_bits → bit b' j ≡ (bit b j || has_frame j table)
  pub fresh : (j : ℕ) → j < b.num_bits → has_frame j table ≡ true → bit b j ≡ false
  pub frames :
      (i : ℕ) → i < length table → (frame table i ≡ minus_one) ⊎ (frame table i < b.num_bits)
  pub apart :
      (i j : ℕ)
      → i < length table
      → j < length table
      → frame table i ≡ frame table j
      → frame table i ≢ minus_one
      → i ≡ j

pub has_frame-frame :
    (table : List TranslationEntry) (i : ℕ)
    → i < length table
    → has_frame (frame table i) table ≡ true
has_frame-frame [] i h = absurd (omega arith)
has_frame-frame (e ∷ table) zero h = rw (eq→== e.physical_page e.physical_page refl) refl
has_frame-frame (e ∷ table) (suc i) h = elim (Bool-cases (e.physical_page == frame table i)) [
  | inl q ↦ rw q refl
  | inr q ↦ rw q (has_frame-frame table i (omega arith))
]

-- One more page in front, which got the frame `k`.
abbrev pub with_page : ℕ → ℕ → List TranslationEntry → List TranslationEntry
with_page i k table =
    record { virtual_page = i; physical_page = k; valid = true; read_only = false } ∷ table

has_frame_fresh :
    (table : List TranslationEntry) (i k : ℕ)
    → i < length table
    → has_frame k table ≡ false
    → k ≢ frame table i
has_frame_fresh table i k h none_here e =
    cc (has_frame-frame table i h, ap (λ q. has_frame q table) e)

with_page_frames :
    (n i k : ℕ) (table : List TranslationEntry)
    → (k ≡ minus_one) ⊎ (k < n)
    → ((q : ℕ) → q < length table → (frame table q ≡ minus_one) ⊎ (frame table q < n))
    → (q : ℕ) → q < suc (length table)
    → (frame (with_page i k table) q ≡ minus_one) ⊎ (frame (with_page i k table) q < n)
with_page_frames n i k table here there zero h = here
with_page_frames n i k table here there (suc q) h = there q (omega arith)

with_page_apart :
    (i k : ℕ) (table : List TranslationEntry)
    → (k ≡ minus_one) ⊎ (has_frame k table ≡ false)
    → ((p q : ℕ)
        → p < length table
        → q < length table
        → frame table p ≡ frame table q
        → frame table p ≢ minus_one
        → p ≡ q)
    → (p q : ℕ) → p < suc (length table)
    → q < suc (length table)
    → frame (with_page i k table) p ≡ frame (with_page i k table) q
    → frame (with_page i k table) p ≢ minus_one
    → p ≡ q
with_page_apart i k table here there zero zero h h' e n = refl
with_page_apart i k table (inl none_left) there zero (suc q) h h' e n = absurd (n none_left)
with_page_apart i k table (inr alone) there zero (suc q) h h' e n =
    absurd (has_frame_fresh table q k (omega arith) alone e)
with_page_apart i k table (inl none_left) there (suc p) zero h h' e n = absurd (n (e ∙ none_left))
with_page_apart i k table (inr alone) there (suc p) zero h h' e n =
    absurd (has_frame_fresh table p k (omega arith) alone (sym e))
with_page_apart i k table here there (suc p) (suc q) h h' e n =
    ap suc (there p q (omega arith) (omega arith) e n)

-- The first page got a frame that was free.
first_Taken :
    (b : BitMap) (k i : ℕ) (b₁ : BitMap)
    → k < b.num_bits
    → bit b k ≡ false
    → b₁.num_bits ≡ b.num_bits
    → ((j : ℕ) → bit b₁ j ≡ (if k == j then true else bit b j))
    → (table : List TranslationEntry) (b' : BitMap) → Taken b₁ table b'
    → Taken b (with_page i k table) b'
first_Taken b k i b₁ small clear same_bits bits table b' t =
    let alone : has_frame k table ≡ false = elim (Bool-cases (has_frame k table)) [
      | inl has ↦
          let used : bit b₁ k ≡ true = rw (bits k, eq→== k k refl) refl in
          cc (t.fresh k (omega (arith, same_bits)) has)
      | inr q ↦ q
    ] in
    record {
      sized = t.sized;
      same_bits = t.same_bits ∙ same_bits;
      bits = λ j h. ground (arith, t.bits j, bits j);
      fresh = λ j h. ground (arith, t.fresh j, bits j, same_bits, ==→eq k j);
      frames = with_page_frames b.num_bits i k table (inr small) (λ q h.
          subst (λ n. (frame table q ≡ minus_one) ⊎ (frame table q < n)) same_bits (t.frames q h));
      apart = with_page_apart i k table (inr alone) t.apart;
    }

-- The first page got no frame, since the map is full.
full_Taken :
    (b : BitMap) (k i : ℕ)
    → b.num_bits < 4294967295
    → k ≡ minus_one
    → ((j : ℕ) → j < b.num_bits → bit b j ≡ true)
    → (table : List TranslationEntry) (b' : BitMap) → Taken b table b'
    → Taken b (with_page i k table) b'
full_Taken b k i countable none_left every table b' t = record {
  sized = t.sized;
  same_bits = t.same_bits;
  bits = λ j h. ground (arith, t.bits j, every j);
  fresh = λ j h. ground (arith, t.fresh j, ==→eq k j);
  frames = with_page_frames b.num_bits i k table (inl none_left) t.frames;
  apart = with_page_apart i k table (inl none_left) t.apart;
}

-- find_pages never fails an assertion; its frames were free, are different, and are all that it
-- takes. A page for which no frame is left has -1.
pub find_pages-Taken :
    (rounds i : ℕ) (b : BitMap)
    → IsSized b
    → (table : List TranslationEntry) × (b' : BitMap) × (find_pages rounds i b ≡ ok (table, b'))
      × (length table ≡ rounds)
      × Taken b table b'
unfolding find_pages
find_pages-Taken zero i b sized = (
  [],
  b,
  refl,
  refl,
  record {
    sized = sized;
    same_bits = refl;
    bits = λ j h. ground arith;
    fresh = λ j h k. cc;
    frames = λ q h. absurd (omega arith);
    apart = λ p q h k e n. absurd (omega arith);
  },
)
find_pages-Taken (suc rounds) i b sized =
    let (k, b₁, ran, found) = find-Found b sized in
    step (find_pages-Taken rounds (suc i)) k b₁ ran found
  where
    step :
        ((b₁ : BitMap)
          → IsSized b₁
          → (table : List TranslationEntry) × (b' : BitMap) × (find_pages rounds (suc i) b₁
              ≡ ok (table, b'))
            × (length table ≡ rounds)
            × Taken b₁ table b')
        → (k : ℕ) (b₁ : BitMap) → find b ≡ ok (k, b₁)
        → Found b k b₁
        → (table : List TranslationEntry) × (b' : BitMap) × (find_pages (suc rounds) i b
            ≡ ok (table, b'))
          × (length table ≡ suc rounds)
          × Taken b table b'
    step rest_of k b₁ ran (first k' b₁' small clear before same_bits bits sized') =
        let (table, b', rest, size, taken) = rest_of b₁ sized' in
        (
          with_page i k table,
          b',
          rw (ran, rest) refl,
          ap suc size,
          first_Taken b k i b₁ small clear same_bits bits table b' taken,
        )
    step rest_of k b₁ ran (full k' none_left every) =
        let (table, b', rest, size, taken) = rest_of b sized in
        (
          with_page i k table,
          b',
          rw (ran, rest) refl,
          ap suc size,
          full_Taken b k i sized.countable none_left every table b' taken,
        )

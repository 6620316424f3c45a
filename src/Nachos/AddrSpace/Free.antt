-- ===== src/Nachos/AddrSpace/Free.antt =====
-- How many frames are free, and the pages that get one.
use distributed_ascii_server.Prelude.{
  ℕ, zero, suc, ◌+◌, ◌≤◌, ◌<◌, ◌≡◌, refl, sym, ap, ◌∙◌, subst, inl, inr, true, false, List, [], ◌∷◌,
  arith, ◌==◌, if◌then◌else◌, length, Bool-cases, ==→eq, ==→ne, ne→==,
}
use distributed_ascii_server.Nachos.Outcome.{ok}
use distributed_ascii_server.Nachos.BitMap.{BitMap, bit, find}
use distributed_ascii_server.Nachos.BitMap.Laws.{IsSized, Found, first, full, find-Found}
use distributed_ascii_server.Nachos.AddrSpace.{TranslationEntry, find_pages}
use distributed_ascii_server.Nachos.AddrSpace.Paging.{frame, IsMapped, Taken, find_pages-Taken}

-- The clear bits below `n`.
unfoldable pub free : ℕ → BitMap → ℕ
free zero b = 0
free (suc n) b = free n b + (if bit b n then 0 else 1)

free-same : (n : ℕ) (b b' : BitMap) → ((j : ℕ) → j < n → bit b' j ≡ bit b j) → free n b' ≡ free n b
unfolding free
free-same zero b b' same = refl
free-same (suc n) b b' same =
    rw (same n (omega arith), free-same n b b' (λ j h. same j (omega arith))) refl

free-first :
    (n : ℕ) (b b' : BitMap) (k : ℕ)
    → k < n
    → bit b k ≡ false
    → ((j : ℕ) → bit b' j ≡ (if k == j then true else bit b j))
    → free n b ≡ suc (free n b')
unfolding free
free-first zero b b' k h clear bits = absurd (omega arith)
free-first (suc n) b b' k h clear bits = elim (Bool-cases (k == n)) [
  | inl here ↦
      let rest : free n b' ≡ free n b =
        free-same n b b'
          (λ j small. rw (bits j, ne→== k j (λ e. omega (arith, ==→eq k n here))) refl) in
      let was : bit b n ≡ false = subst (λ q. bit b q ≡ false) (==→eq k n here) clear in
      let now : bit b' n ≡ true = rw (bits n, here) refl in rw (was, now) (omega arith)
  | inr other ↦
      let ih = free-first n b b' k (omega (arith, ==→ne k n other)) clear bits in
      let same : bit b' n ≡ bit b n = rw (bits n, other) refl in rw (same, ih) (omega arith)
]

free-full : (n : ℕ) (b : BitMap) → ((j : ℕ) → j < n → bit b j ≡ true) → free n b ≡ 0
unfolding free
free-full zero b every = refl
free-full (suc n) b every =
    rw (every n (omega arith), free-full n b (λ j h. every j (omega arith))) refl

-- Every page is valid and has a frame below `n`.
abbrev pub InUse : ℕ → List TranslationEntry → Type 0
InUse n [] = Unit
InUse n (e ∷ table) = (e.valid ≡ true) × (e.physical_page < n) × InUse n table

pub InUse-frame :
    (n : ℕ) (table : List TranslationEntry)
    → InUse n table
    → (q : ℕ) → q < length table
    → frame table q < n
InUse-frame n [] used q h = absurd (omega arith)
InUse-frame n (e ∷ table) used zero h = used.1
InUse-frame n (e ∷ table) used (suc q) h = InUse-frame n table used.2 q (omega arith)

find_pages_free :
    (rounds i : ℕ) (b : BitMap)
    → IsSized b
    → rounds ≤ free b.num_bits b
    → (table : List TranslationEntry) × (b' : BitMap) × (find_pages rounds i b ≡ ok (table, b'))
      × InUse b.num_bits table
unfolding find_pages
find_pages_free zero i b sized enough = ([], b, refl, tt)
find_pages_free (suc rounds) i b sized enough =
    let (k, b₁, ran, found) = find-Found b sized in
    step (find_pages_free rounds (suc i)) k b₁ ran found
  where
    step :
        ((b₁ : BitMap)
          → IsSized b₁
          → rounds ≤ free b₁.num_bits b₁
          → (table : List TranslationEntry) × (b' : BitMap) × (find_pages rounds (suc i) b₁
              ≡ ok (table, b'))
            × InUse b₁.num_bits table)
        → (k : ℕ) (b₁ : BitMap) → find b ≡ ok (k, b₁)
        → Found b k b₁
        → (table : List TranslationEntry) × (b' : BitMap) × (find_pages (suc rounds) i b
            ≡ ok (table, b'))
          × InUse b.num_bits table
    step rest_of k b₁ ran (first k' b₁' small clear before same_bits bits sized') =
        let fewer : free b.num_bits b ≡ suc (free b₁.num_bits b₁) =
          free-first b.num_bits b b₁ k small clear bits
          ∙ ap (λ n. suc (free n b₁)) (sym same_bits) in
        let (table, b', rest, frames) = rest_of b₁ sized' (omega (arith, fewer, enough)) in
        (
          record { virtual_page = i; physical_page = k; valid = true; read_only = false } ∷ table,
          b',
          rw (ran, rest) refl,
          (refl, small, subst (λ n. InUse n table) same_bits frames),
        )
    step rest_of k b₁ ran (full k' none_left every) =
        absurd (omega (arith, free-full b.num_bits b every, enough))

-- Where enough frames are free every page gets one: of its own, free before, and below 32.
pub find_pages-IsMapped :
    (rounds i : ℕ) (b : BitMap)
    → IsSized b
    → b.num_bits ≡ 32
    → rounds ≤ free 32 b
    → (table : List TranslationEntry) × (b' : BitMap) × (find_pages rounds i b ≡ ok (table, b'))
      × (length table ≡ rounds)
      × InUse 32 table
      × IsMapped table
      × Taken b table b'
find_pages-IsMapped rounds i b sized frames_32 enough =
    let (table, b', ran, size, taken) = find_pages-Taken rounds i b sized in
    let (table₂, b₂, ran₂, used) =
      find_pages_free rounds i b sized (subst (λ n. rounds ≤ free n b) (sym frames_32) enough) in
    let same : table₂ ≡ table = cc in
    let in_use : InUse 32 table =
      subst (InUse 32) same (subst (λ n. InUse n table₂) frames_32 used) in
    (
      table,
      b',
      ran,
      size,
      in_use,
      record {
        inside = InUse-frame 32 table in_use;
        apart = λ p q h h' e.
            taken.apart p q h h' e (λ n. omega (arith, InUse-frame 32 table in_use p h, n));
      },
      taken,
    )

-- ===== src/Nachos/AddrSpace/Loading.antt =====
-- The loading of a segment, page by page, seen through the page table.
use distributed_ascii_server.Prelude.{
  ℕ, zero, suc, ◌+◌, ◌-◌, ◌*◌, ◌/◌, ◌%◌, ◌≤◌, ◌<◌, ◌≡◌, ◌≢◌, refl, ap, ◌∙◌, subst, inl, inr, false,
  ◌&&◌, List, [], ◌∷◌, arith, ltb, leb, ◌==◌, if◌then◌else◌, length, get_or, Bool-cases, ==→eq,
  ==→ne, eq→==, ne→==, ltb→lt, ltb→le, leb→le, lt→leb,
}
use distributed_ascii_server.Text.{Bytes}
use distributed_ascii_server.Nachos.Outcome.{ok}
use distributed_ascii_server.Nachos.AddrSpace.{
  TranslationEntry, Segment, word, page, read_at, load_loop, load_segment, min,
}
use distributed_ascii_server.Nachos.AddrSpace.Paging.{frame, physical, has_frame, IsMapped}
use distributed_ascii_server.Nachos.AddrSpace.Page.{read, read_at_page, read-physical, read-outside}

-- The segment lies in the pages of the table, and in the file.
pub record Fits (table : List TranslationEntry) (file : Bytes) (s : Segment) : Type 0 where
  pub in_pages : s.virtual_addr + s.size ≤ length table * 128
  pub in_file : s.in_file_addr + s.size ≤ length file
  pub pages : length table ≤ 32

-- How memory is, through the table, after the bytes of `s` from `r` on are loaded.
pub record Loaded (table : List TranslationEntry) (file : Bytes) (s : Segment) (r : ℕ)
    (memory memory' : ℕ → ℕ) : Type 0 where
  pub inside :
      (v : ℕ)
      → v < length table * 128
      → memory' (physical table v) ≡ (
          if leb (s.virtual_addr + r) v && ltb v (s.virtual_addr + s.size)
          then get_or file (s.in_file_addr + (v - s.virtual_addr)) 0
          else memory (physical table v))
  pub outside : (p : ℕ) → has_frame (p / 128) table ≡ false → memory' p ≡ memory p

-- Where the loop is: in front of page `i` with `r` bytes loaded, or at the end.
data Place (s : Segment) (rounds i r : ℕ) : Type 0 where
  more :
      r < s.size
      → i ≡ (s.virtual_addr + r) / 128
      → i + rounds ≡ (s.virtual_addr + s.size - 1) / 128 + 1
      → (if i == s.virtual_addr / 128 then s.virtual_addr % 128 else 0) ≡ (s.virtual_addr + r) % 128
      → Place s rounds i r
  over : r ≡ s.size → rounds ≡ 0 → Place s rounds i r

page-frame :
    (table : List TranslationEntry) (i : ℕ)
    → i < length table
    → (e : TranslationEntry) × (page table i ≡ ok e) × (e.physical_page ≡ frame table i)
unfolding page
page-frame [] i h = absurd (omega arith)
page-frame (e ∷ table) zero h = (e, refl, refl)
page-frame (e ∷ table) (suc i) h = page-frame table i (omega arith)

-- The bytes of one page are loaded from byte `r` on.
abbrev in_page : Segment → ℕ → ℕ
in_page s r = (s.virtual_addr + r) % 128

abbrev page_bytes : Segment → ℕ → ℕ
page_bytes s r = min (128 - in_page s r) (s.size - r)

in_page-bounds : (s : Segment) (r : ℕ) → in_page s r + page_bytes s r ≤ 128
in_page-bounds s r = ground arith

page_bytes-le : (s : Segment) (r : ℕ) → r < s.size → r + page_bytes s r ≤ s.size
page_bytes-le s r h = ground arith

-- A value for the addresses up to `mid` and one for those from there on are one for all.
merge :
    (lo mid hi v a b c f g : ℕ)
    → lo ≤ mid
    → mid ≤ hi
    → a ≡ (if leb mid v && ltb v hi then f else b)
    → b ≡ (if leb lo v && ltb v mid then g else c)
    → (lo ≤ v → g ≡ f)
    → a ≡ (if leb lo v && ltb v hi then f else c)
merge lo mid hi v a b c f g le le' top bottom same = elim (Bool-cases (leb lo v)) [
  | inl above ↦ ground (arith, same (leb→le lo v above))
  | inr below ↦ ground arith
]

next-Place :
    (s : Segment) (rounds i r : ℕ)
    → r < s.size
    → i ≡ (s.virtual_addr + r) / 128
    → i + suc rounds ≡ (s.virtual_addr + s.size - 1) / 128 + 1
    → Place s rounds (suc i) (r + page_bytes s r)
next-Place s rounds i r before here total =
    elim (Bool-cases (ltb (128 - in_page s r) (s.size - r))) [
      | inl full ↦
          let lt : 128 - in_page s r < s.size - r = ltb→lt _ _ full in
          rw full (
            more (omega arith) (omega arith) (omega arith)
              (rw (ne→== (suc i) (s.virtual_addr / 128) (λ e. omega arith)) (omega arith)))
      | inr rest ↦
          let le : s.size - r ≤ 128 - in_page s r = ltb→le _ _ rest in
          rw rest (over (omega arith) (omega arith))
    ]

-- The bytes of one page, and then the others.
Loaded-step :
    (table : List TranslationEntry) (mapped : IsMapped table) (file : Bytes) (s : Segment)
    (fits : Fits table file s) (i r : ℕ)
    → r < s.size
    → i ≡ (s.virtual_addr + r) / 128
    → (memory : ℕ → ℕ)
    → (m : ℕ → ℕ) × (read_at memory file
          (word (frame table i * 128 + in_page s r))
          (page_bytes s r)
          (s.in_file_addr + r)
        ≡ ok m)
      × ((memory' : ℕ → ℕ)
          → Loaded table file s (r + page_bytes s r) m memory'
          → Loaded table file s r memory memory')
Loaded-step table mapped file s fits i r before here memory =
    let count = page_bytes s r in
    let inside = in_page-bounds s r in
    let enough : s.in_file_addr + r + count ≤ length file =
      omega (arith, fits.in_file, page_bytes-le s r before) in
    let there : i < length table = omega (arith, fits.in_pages) in
    let start : i * 128 + in_page s r ≡ s.virtual_addr + r = omega arith in
    let finish : i * 128 + in_page s r + count ≡ s.virtual_addr + (r + count) = omega arith in
    let m =
      read table mapped file (s.in_file_addr + r) i (in_page s r) count memory there inside
        enough in
    (
      m,
      read_at_page table mapped file (s.in_file_addr + r) i (in_page s r) count memory there inside
          enough,
      λ memory' loaded. record {
        inside = λ v small.
            let page_read : m (physical table v) ≡ (
                if leb (s.virtual_addr + r) v && ltb v (s.virtual_addr + (r + count))
                then get_or file (s.in_file_addr + r + (v - (s.virtual_addr + r))) 0
                else memory (physical table v)) =
              subst
                (λ (p : ℕ × ℕ). m (physical table v) ≡ (
                  if leb p.0 v && ltb v p.1
                  then get_or file (s.in_file_addr + r + (v - p.0)) 0
                  else memory (physical table v)))
                (λ j. (start j, finish j))
                (read-physical table mapped file (s.in_file_addr + r) i (in_page s r) count memory
                  there inside enough v small) in
            merge (s.virtual_addr + r) (s.virtual_addr + (r + count)) (s.virtual_addr + s.size) v
              (memory' (physical table v)) (m (physical table v)) (memory (physical table v))
              (get_or file (s.in_file_addr + (v - s.virtual_addr)) 0)
              (get_or file (s.in_file_addr + r + (v - (s.virtual_addr + r))) 0) (omega arith)
              (omega (arith, page_bytes-le s r before)) (loaded.inside v small) page_read
              (λ le. ap (λ p. get_or file p 0) (omega arith));
        outside = λ p none_here.
            loaded.outside p none_here
            ∙ read-outside table mapped file (s.in_file_addr + r) i (in_page s r) count memory there
                inside enough p none_here;
      },
    )

load_loop_lem :
    (table : List TranslationEntry)
    → IsMapped table
    → (file : Bytes) (s : Segment) → Fits table file s
    → (rounds i r : ℕ) → Place s rounds i r
    → (memory : ℕ → ℕ)
    → (memory' : ℕ → ℕ) × (load_loop rounds table file s i r memory ≡ ok memory')
      × Loaded table file s r memory memory'
unfolding load_loop
load_loop_lem table mapped file s fits zero i r (more before here total offset) memory =
    absurd (omega arith)
load_loop_lem table mapped file s fits zero i r (over same none_left) memory =
    (memory, refl, record { inside = λ v h. ground arith; outside = λ p h. refl })
load_loop_lem table mapped file s fits (suc rounds) i r (over same none_left) memory =
    absurd (omega arith)
load_loop_lem table mapped file s fits (suc rounds) i r (more before here total offset) memory =
    let (e, got, frame_here) = page-frame table i (omega (arith, fits.in_pages)) in
    let (m, page_read, whole) = Loaded-step table mapped file s fits i r before here memory in
    let (memory', ran, loaded) =
      load_loop_lem table mapped file s fits rounds (suc i) (r + page_bytes s r)
        (next-Place s rounds i r before here total) m in
    (memory', rw (offset, got, frame_here, page_read) ran, whole memory' loaded)

-- Where every page has a frame and the segment lies in the pages and in the file, load_segment
-- puts the bytes of the file at the virtual addresses of the segment. It changes no other virtual
-- address of the process, and no frame of another.
pub load_segment-Loaded :
    (table : List TranslationEntry)
    → IsMapped table
    → (file : Bytes) (s : Segment) → Fits table file s
    → (memory : ℕ → ℕ)
    → (memory' : ℕ → ℕ) × (load_segment table file s memory ≡ ok memory')
      × Loaded table file s 0 memory memory'
unfolding load_segment
load_segment-Loaded table mapped file s fits memory = elim (Bool-cases (s.size == 0)) [
  | inl empty ↦
      let none_left : s.size ≡ 0 = ==→eq _ _ empty in
      (memory, rw empty refl, record { inside = λ v h. ground arith; outside = λ p h. refl })
  | inr some_left ↦
      let n : s.size ≢ 0 = ==→ne _ _ some_left in
      let small : leb 2147483648 s.size ≡ false =
        lt→leb _ _ (omega (arith, fits.in_pages, fits.pages)) in
      let last : word (s.virtual_addr + s.size + 4294967295) ≡ s.virtual_addr + s.size - 1 =
        omega (arith, fits.in_pages, fits.pages) in
      rw (some_left, small, last)
        (load_loop_lem table mapped file s fits
          ((s.virtual_addr + s.size - 1) / 128 + 1 - s.virtual_addr / 128) (s.virtual_addr / 128) 0
          (more (omega arith) (omega arith) (omega arith)
            (rw (eq→== (s.virtual_addr / 128) (s.virtual_addr / 128) refl) (omega arith)))
          memory)
]

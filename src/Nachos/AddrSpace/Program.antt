-- ===== src/Nachos/AddrSpace/Program.antt =====
-- What the constructor of an address space leaves in memory, from the header to the last segment.
use distributed_ascii_server.Prelude.{
  ℕ, ◌+◌, ◌-◌, ◌*◌, ◌/◌, ◌≤◌, ◌<◌, ◌≡◌, refl, ap, ◌∙◌, subst, Bool, false, ◌&&◌, List, arith, ltb,
  leb, if◌then◌else◌, length, get_or, le→leb,
}
use mathlib.Core.Path.{fun_ext}
use distributed_ascii_server.Text.{Bytes}
use distributed_ascii_server.Nachos.Outcome.{ok}
use distributed_ascii_server.Nachos.BitMap.Laws.{IsSized}
use distributed_ascii_server.Nachos.AddrSpace.{
  TranslationEntry, Segment, NoffHeader, Frames, AddrSpace, right_header, noff_magic_number, word,
  div_round_up, user_stack_size, page_size, load_program, new_addr_space, bzero,
}
use distributed_ascii_server.Nachos.AddrSpace.Paging.{physical, has_frame, IsMapped, Taken}
use distributed_ascii_server.Nachos.AddrSpace.Free.{free, InUse, find_pages-IsMapped}
use distributed_ascii_server.Nachos.AddrSpace.Loading.{Fits, Loaded, load_segment-Loaded}

-- The pages that a program needs.
abbrev pub pages_of : NoffHeader → ℕ
pages_of h =
    div_round_up (word (h.code.size + h.init_data.size + h.uninit_data.size + user_stack_size))
      page_size

abbrev pub in_segment : Segment → ℕ → Bool
in_segment s v = leb s.virtual_addr v && ltb v (s.virtual_addr + s.size)

-- The byte of the file for address `v` of a segment.
abbrev pub byte_of : Bytes → Segment → ℕ → ℕ
byte_of file s v = get_or file (s.in_file_addr + (v - s.virtual_addr)) 0

-- The segment lies in the program's pages and in the file.
pub record Lies (pages : ℕ) (file : Bytes) (s : Segment) : Type 0 where
  pub in_pages : s.virtual_addr + s.size ≤ pages * 128
  pub in_file : s.in_file_addr + s.size ≤ length file

-- Memory after bzero of `n` bytes.
abbrev pub cleared : ℕ → (ℕ → ℕ) → ℕ → ℕ
cleared n memory p = if ltb p n then 0 else memory p

-- What a new address space is made from: the header, the segments, the frames.
pub record IsLoadable (h : NoffHeader) (file : Bytes) (f : Frames) : Type 0 where
  pub magic : h.noff_magic ≡ noff_magic_number
  pub pages : pages_of h ≤ 32
  pub code : Lies (pages_of h) file h.code
  pub init_data : Lies (pages_of h) file h.init_data
  pub sized : IsSized f.mi_mapa
  pub frames : f.mi_mapa.num_bits ≡ 32
  pub enough : pages_of h ≤ free 32 f.mi_mapa

Lies-Fits :
    {pages : ℕ} {file : Bytes} {s : Segment} (table : List TranslationEntry)
    → length table ≡ pages
    → pages ≤ 32
    → Lies pages file s
    → Fits table file s
Lies-Fits table size small lies = record {
  in_pages = omega (arith, size, lies.in_pages);
  in_file = lies.in_file;
  pages = omega (arith, size);
}

-- What a program finds at its virtual address `v`.
abbrev pub image : Bytes → NoffHeader → (ℕ → ℕ) → ℕ → ℕ → ℕ
image file h memory p v =
    if in_segment h.init_data v
    then byte_of file h.init_data v
    else (if in_segment h.code v
        then byte_of file h.code v
        else cleared (pages_of h * 128) memory p)

Loaded-image :
    (table : List TranslationEntry) (file : Bytes) (s : Segment) (m m' : ℕ → ℕ)
    → Loaded table file s 0 m m'
    → (v : ℕ) → v < length table * 128
    → m' (physical table v) ≡ (if in_segment s v then byte_of file s v else m (physical table v))
Loaded-image table file s m m' loaded v small =
    subst
      (λ (lo : ℕ). m' (physical table v) ≡ (
        if leb lo v && ltb v (s.virtual_addr + s.size)
        then byte_of file s v
        else m (physical table v)))
      (omega arith) (loaded.inside v small)

bzero_lem : (memory : ℕ → ℕ) (n : ℕ) → n ≤ 4096 → bzero memory 0 n ≡ ok (cleared n memory)
unfolding bzero
bzero_lem memory n small =
    rw (le→leb (0 + n) 4096 (omega arith)) (ap ok (fun_ext (λ p. ground arith)))

-- How the constructor ends: with a table of `pages_of h` pages, each with a free frame of its own;
-- with the program's bytes at their virtual addresses; and with no other frame's bytes changed but
-- those that bzero clears.
pub record Created (h : NoffHeader) (file : Bytes) (f : Frames) (space : AddrSpace) (f' : Frames)
    : Type 0 where
  pub pages : space.num_pages ≡ pages_of h
  pub size : length space.page_table ≡ pages_of h
  pub in_use : InUse 32 space.page_table
  pub mapped : IsMapped space.page_table
  pub taken : Taken f.mi_mapa space.page_table f'.mi_mapa
  pub inside :
      (v : ℕ)
      → v < pages_of h * 128
      → f'.main_memory (physical space.page_table v)
        ≡ image file h f.main_memory (physical space.page_table v) v
  pub outside :
      (p : ℕ)
      → has_frame (p / 128) space.page_table ≡ false
      → f'.main_memory p ≡ cleared (pages_of h * 128) f.main_memory p

load_program-Created :
    (h : NoffHeader) (file : Bytes) (f : Frames)
    → IsLoadable h file f
    → (space : AddrSpace) × (f' : Frames) × (load_program h file f ≡ ok (space, f'))
      × Created h file f space f'
unfolding load_program
load_program-Created h file f loadable =
    let n = pages_of h in
    let (table, b, found, size, in_use, mapped, taken) =
      find_pages-IsMapped n 0 f.mi_mapa loadable.sized loadable.frames loadable.enough in
    let zeros = cleared (n * 128) f.main_memory in
    let (with_code, code_ran, code) =
      load_segment-Loaded table mapped file h.code
        (Lies-Fits table size loadable.pages loadable.code) zeros in
    let (with_data, data_ran, init_data) =
      load_segment-Loaded table mapped file h.init_data
        (Lies-Fits table size loadable.pages loadable.init_data) with_code in
    (
      record { page_table = table; num_pages = n },
      record { mi_mapa = b; main_memory = with_data },
      rw
          (
            loadable.magic,
            le→leb n 32 loadable.pages,
            found,
            bzero_lem f.main_memory (n * 128) (omega (arith, loadable.pages)),
            code_ran,
            data_ran,
          )
          refl,
      record {
        pages = refl;
        size = size;
        in_use = in_use;
        mapped = mapped;
        taken = taken;
        inside = λ v small.
            let here : v < length table * 128 = omega (arith, size) in
            Loaded-image table file h.init_data with_code with_data init_data v here
            ∙ ap (λ r. if in_segment h.init_data v then byte_of file h.init_data v else r)
                (Loaded-image table file h.code zeros with_code code v here);
        outside = λ p none_here. init_data.outside p none_here ∙ code.outside p none_here;
      },
    )

-- Where the header is good, in the host's byte order or in the other one, the segments lie in the
-- pages and in the file, and enough frames are free, the constructor of a process ends without a
-- failed assertion. Each page has a frame of its own, which was free; the process sees the file's
-- bytes at the addresses of the initialised data and, where those are not, of the code; elsewhere it
-- sees 0 if the frame is among the first bytes that bzero clears, and what was there before if not.
-- Frames of other processes keep their bytes, but for those first bytes, which are cleared.
pub new_addr_space-Created :
    (word_to_host : ℕ → ℕ) (h : NoffHeader) (file : Bytes) (f : Frames)
    → IsLoadable (right_header word_to_host h) file f
    → (space : AddrSpace) × (f' : Frames) × (new_addr_space word_to_host h file f ≡ ok (space, f'))
      × Created (right_header word_to_host h) file f space f'
unfolding new_addr_space
new_addr_space-Created word_to_host h file f loadable =
    load_program-Created (right_header word_to_host h) file f loadable

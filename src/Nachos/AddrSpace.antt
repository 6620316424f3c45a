-- ===== src/Nachos/AddrSpace.antt =====
-- userprog/addrspace.cc: the page table of a process, its pages' frames, and the loading of a
-- program. Main memory is 32 frames of 128 bytes.
pub mod Paging
pub mod Page
pub mod Free
pub mod Program
pub mod Lifecycle
pub mod Processes
pub mod Shared
pub mod Loading
use distributed_ascii_server.Prelude.{
  ℕ, zero, suc, ◌+◌, ◌-◌, ◌*◌, ◌/◌, ◌%◌, Bool, true, false, not, ◌&&◌, ◌||◌, Option, none, some,
  List, [], ◌∷◌, ◌++◌, ltb, leb, ◌==◌, if◌then◌else◌, length, get_elem?, get_or, take, drop,
}
use distributed_ascii_server.Text.{Bytes}
use distributed_ascii_server.Nachos.Outcome.{
  Outcome, ok, assert_failed, out_of_bounds, ◌>>=◌, minus_one,
}
use distributed_ascii_server.Nachos.BitMap
use distributed_ascii_server.Nachos.BitMap.{BitMap}

-- PageSize, NumPhysPages, MemorySize and UserStackSize
abbrev pub page_size : ℕ
page_size = 128

abbrev pub num_phys_pages : ℕ
num_phys_pages = 32

abbrev pub memory_size : ℕ
memory_size = 4096

abbrev pub user_stack_size : ℕ
user_stack_size = 1024

abbrev pub word : ℕ → ℕ
word n = n % 4294967296

pub record Segment : Type 0 where
  pub virtual_addr : ℕ
  pub in_file_addr : ℕ
  pub size : ℕ

pub record NoffHeader : Type 0 where
  pub noff_magic : ℕ
  pub code : Segment
  pub init_data : Segment
  pub uninit_data : Segment

abbrev pub noff_magic_number : ℕ
noff_magic_number = 12246957

-- The use and dirty bits are written by the machine and read by none of this.
pub record TranslationEntry : Type 0 where
  pub virtual_page : ℕ
  pub physical_page : ℕ
  pub valid : Bool
  pub read_only : Bool

pub record AddrSpace : Type 0 where
  pub page_table : List TranslationEntry
  pub num_pages : ℕ

-- The map of frames and the bytes of main memory.
pub record Frames : Type 0 where
  pub mi_mapa : BitMap
  pub main_memory : ℕ → ℕ

-- WordToHost depends on the host, so it is a parameter.
unfoldable pub swap_segment : (ℕ → ℕ) → Segment → Segment
swap_segment word_to_host s = record {
  virtual_addr = word_to_host s.virtual_addr;
  in_file_addr = word_to_host s.in_file_addr;
  size = word_to_host s.size;
}

unfoldable pub swap_header : (ℕ → ℕ) → NoffHeader → NoffHeader
swap_header word_to_host h = record {
  noff_magic = word_to_host h.noff_magic;
  code = swap_segment word_to_host h.code;
  init_data = swap_segment word_to_host h.init_data;
  uninit_data = swap_segment word_to_host h.uninit_data;
}

abbrev pub min : ℕ → ℕ → ℕ
min a b = if ltb a b then a else b

-- divRoundUp takes an int, so a size from 2 ^ 31 on is negative, and is cut towards 0.
abbrev pub div_round_up : ℕ → ℕ → ℕ
div_round_up n s =
    if ltb n 2147483648
    then n / s + (if ltb 0 (n % s) then 1 else 0)
    else word (4294967296 - (4294967296 - n) / s)

-- The loop that gives a frame to each page from page `i` on.
unfoldable pub find_pages : ℕ → ℕ → BitMap → Outcome (List TranslationEntry × BitMap)
find_pages zero i b = ok ([], b)
find_pages (suc rounds) i b = BitMap.find b >>= λ found.
    find_pages rounds (suc i) found.1 >>= λ more. ok (
      record { virtual_page = i; physical_page = found.0; valid = true; read_only = false }
          ∷ more.0,
      more.1,
    )

-- bzero of `n` bytes at `addr`.
unfoldable pub bzero : (ℕ → ℕ) → ℕ → ℕ → Outcome (ℕ → ℕ)
bzero memory addr n =
    if leb (addr + n) memory_size
    then ok (λ p. if leb addr p && ltb p (addr + n) then 0 else memory p)
    else out_of_bounds

-- ReadAt of `n` bytes at `position` of the file, into memory at `addr`. A file that ends before
-- gives fewer bytes. Room for `n` bytes has to be there, whatever the file gives.
unfoldable pub read_at : (ℕ → ℕ) → Bytes → ℕ → ℕ → ℕ → Outcome (ℕ → ℕ)
read_at memory file addr n position =
    let got = take n (drop position file) in
    if leb (addr + n) memory_size
    then ok
        (λ p. if leb addr p && ltb p (addr + length got) then get_or got (p - addr) 0 else memory p)
    else out_of_bounds

-- pageTable[i]
unfoldable pub page : List TranslationEntry → ℕ → Outcome TranslationEntry
page table i = elim (get_elem? table i) [ none ↦ out_of_bounds | some e ↦ ok e ]

-- The loop over the pages of a segment, from page `i` on, with `bytes_read` bytes loaded.
unfoldable pub load_loop :
    ℕ → List TranslationEntry → Bytes → Segment → ℕ → ℕ → (ℕ → ℕ) → Outcome (ℕ → ℕ)
load_loop zero table file s i bytes_read memory = ok memory
load_loop (suc rounds) table file s i bytes_read memory =
    let page_offset = if i == s.virtual_addr / page_size then s.virtual_addr % page_size else 0 in
    let bytes_to_read = min (page_size - page_offset) (s.size - bytes_read) in
    page table i >>= λ entry.
    read_at memory file (word (entry.physical_page * page_size + page_offset)) bytes_to_read
      (s.in_file_addr + bytes_read)
    >>= λ memory'. load_loop rounds table file s (suc i) (bytes_read + bytes_to_read) memory'

-- One segment, page by page. Its size is an int, and nothing is loaded unless it is above 0; its
-- virtual address is an int that is not negative.
unfoldable pub load_segment : List TranslationEntry → Bytes → Segment → (ℕ → ℕ) → Outcome (ℕ → ℕ)
load_segment table file s memory =
    if (s.size == 0) || leb 2147483648 s.size
    then ok memory
    else load_loop
        (word (s.virtual_addr + s.size + 4294967295) / page_size + 1 - s.virtual_addr / page_size)
        table file s (s.virtual_addr / page_size) 0 memory

abbrev pub right_header : (ℕ → ℕ) → NoffHeader → NoffHeader
right_header word_to_host h =
    if not (h.noff_magic == noff_magic_number) && (word_to_host h.noff_magic == noff_magic_number)
    then swap_header word_to_host h
    else h

-- AddrSpace(OpenFile *) after the header is read. bzero clears the first bytes of main memory,
-- wherever the frames are.
unfoldable pub load_program : NoffHeader → Bytes → Frames → Outcome (AddrSpace × Frames)
load_program noff_h file f =
    let needed =
      word (noff_h.code.size + noff_h.init_data.size + noff_h.uninit_data.size + user_stack_size) in
    let num_pages = div_round_up needed page_size in
    if not (noff_h.noff_magic == noff_magic_number) || not (leb num_pages num_phys_pages)
    then assert_failed
    else (find_pages num_pages 0 f.mi_mapa >>= λ found.
        bzero f.main_memory 0 (num_pages * page_size) >>= λ cleared.
        load_segment found.0 file noff_h.code cleared >>= λ with_code.
        load_segment found.0 file noff_h.init_data with_code >>= λ with_data. ok (
          record { page_table = found.0; num_pages = num_pages },
          record { mi_mapa = found.1; main_memory = with_data },
        ))

-- AddrSpace(OpenFile *): `h` is what the header of the file is read as.
unfoldable pub new_addr_space : (ℕ → ℕ) → NoffHeader → Bytes → Frames → Outcome (AddrSpace × Frames)
new_addr_space word_to_host h file f = load_program (right_header word_to_host h) file f

-- The last loop of AddrSpace(AddrSpace *): a frame of zeros for each page of the stack.
unfoldable pub stack_pages : ℕ → ℕ → Frames → Outcome (List TranslationEntry × Frames)
stack_pages zero i f = ok ([], f)
stack_pages (suc rounds) i f = BitMap.find f.mi_mapa >>= λ found.
    bzero f.main_memory (word (found.0 * page_size)) page_size >>= λ cleared.
    stack_pages rounds (suc i) (record { mi_mapa = found.1; main_memory = cleared }) >>= λ more.
    ok (
      record { virtual_page = i; physical_page = found.0; valid = true; read_only = false }
          ∷ more.0,
      more.1,
    )

-- AddrSpace(AddrSpace *): the pages below the stack are shared. Every space has at least the stack's
-- pages.
unfoldable pub fork_addr_space : AddrSpace → Frames → Outcome (AddrSpace × Frames)
fork_addr_space space f =
    let size = space.num_pages - div_round_up user_stack_size page_size in
    stack_pages (space.num_pages - size) size f >>= λ stack. ok (
      record { page_table = take size space.page_table ++ stack.0; num_pages = space.num_pages },
      stack.1,
    )

-- ~AddrSpace
unfoldable pub clear_pages : List TranslationEntry → BitMap → Outcome BitMap
clear_pages [] b = ok b
clear_pages (entry ∷ table) b =
    if entry.valid
    then (BitMap.clear b entry.physical_page >>= λ b'. clear_pages table b')
    else clear_pages table b

unfoldable pub delete_addr_space : AddrSpace → Frames → Outcome Frames
delete_addr_space space f =
    clear_pages space.page_table f.mi_mapa >>= λ b. ok (record f { mi_mapa = b })

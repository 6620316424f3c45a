-- ===== src/Tests/Syscalls.antt =====
-- System calls of a small process: one page in frame 3 that begins with "hi", and a file behind
-- handle 3.
use distributed_ascii_server.Prelude.{
  ℕ, zero, suc, ◌+◌, ◌*◌, ◌%◌, ◌<◌, ◌≡◌, ◌≢◌, ◌⊎◌, refl, true, false, none, some, List, [], ◌∷◌,
  ◌++◌, arith, ◌==◌, if◌then◌else◌, length, take, set, replicate,
}
use distributed_ascii_server.Text.{bytes}
use distributed_ascii_server.Nachos.Outcome.{ok, assert_failed, out_of_bounds, minus_one}
use distributed_ascii_server.Nachos.BitMap.{bit, test as test_at, test_bit}
use distributed_ascii_server.Nachos.BitMap.Laws.{IsSized}
use distributed_ascii_server.Nachos.OpenFiles.{OpenFilesTable, is_opened, get_unix_handle}
use distributed_ascii_server.Nachos.OpenFiles.Laws.{IsTable, Opened}
use distributed_ascii_server.Nachos.AddrSpace.{AddrSpace, TranslationEntry}
use distributed_ascii_server.Nachos.AddrSpace.Paging.{frame, IsMapped, Taken}
use distributed_ascii_server.Nachos.AddrSpace.Free.{free}
use distributed_ascii_server.Nachos.Kernel.{
  Kernel, Unix, Child, returned, asleep, syscall_exception, write_register, result, pc_reg,
  next_pc_reg, text,
}
use distributed_ascii_server.Nachos.Syscalls.{
  exception_handler, nachos_fork, nachos_fork_thread, ret_addr_reg,
}
use distributed_ascii_server.Nachos.Syscalls.Files.{nachos_open, nachos_read, nachos_write}
use distributed_ascii_server.Nachos.Syscalls.Semaphores.{nachos_sem_create, nachos_sem_wait}
use distributed_ascii_server.Nachos.Syscalls.UserMemory.{Runs, user_byte}
use distributed_ascii_server.Nachos.Syscalls.StoreMemory.{overlay}
use distributed_ascii_server.Nachos.Syscalls.Reading.{read_refused, nachos_read_lem}
use distributed_ascii_server.Nachos.Syscalls.Writing.{nachos_write-console}
use distributed_ascii_server.Nachos.Syscalls.Opening.{nachos_open_lem, nachos_open_long}
use distributed_ascii_server.Nachos.Syscalls.Waiting.{created, sem_wait-sem_create}
use distributed_ascii_server.Nachos.Syscalls.Forking.{nachos_fork_lem}
mod Connections

-- A Unix that opens every name as 5, reads two bytes, and writes all; its state counts the calls.
abbrev pub unix : Unix ℕ
unix = record {
  open_rw = λ u name. (5, u + 1);
  read = λ u fd n. (some (7 ∷ 8 ∷ []), u + 1);
  write = λ u fd buffer. (length buffer, u + 1);
  close = λ u fd. (0, u + 1);
  socket = λ u family type. (6, u + 1);
  connect = λ u fd address. (0, u + 1);
}

-- r2 has the call's number, and r4 to r6 its arguments.
abbrev pub call : ℕ → ℕ → ℕ → ℕ → ℕ → ℕ
call type a b c r =
    if r == 2 then type else if r == 4 then a else if r == 5 then b else if r == 6 then c else 0

abbrev pub one_page : AddrSpace
one_page = record {
  page_table = record { virtual_page = 0; physical_page = 3; valid = true; read_only = false } ∷ [];
  num_pages = 1;
}

-- The page holds the text, and zeros behind it.
abbrev pub kernel : AddrSpace → (ℕ → ℕ) → (ℕ → ℕ) → Kernel ℕ
kernel space memory registers = record {
  registers = registers;
  frames = record { mi_mapa = record { num_bits = 32; map = 8 ∷ [] }; main_memory = memory };
  space = some space;
  files = record {
    open_files = 0 ∷ 1 ∷ 2 ∷ 4 ∷ replicate 96 minus_one;
    open_files_map = record { num_bits = 100; map = 15 ∷ 0 ∷ 0 ∷ 0 ∷ [] };
    usage = 1;
  };
  console = record { value = 1; queue = [] };
  sem_table = replicate 128 none;
  thread = 1;
  new_thread = 2;
  ready = [];
  children = [];
  ipv6 = false;
  printed = [];
  unix = 0;
}

abbrev pub hi : ℕ → ℕ
hi p = if p == 384 then 104 else if p == 385 then 105 else 0

-- 127 bytes of `a`, and then a NUL.
abbrev long_name : ℕ → ℕ
long_name p = if p == 511 then 0 else 97

runs : (memory registers : ℕ → ℕ) → Runs (kernel one_page memory registers) one_page
runs memory registers = record {
  current = refl;
  writable = (refl, refl, omega arith, tt);
  pages = omega arith;
}

in_frame_3 : (q : ℕ) → q < 1 → frame one_page.page_table q < 32
in_frame_3 zero h = omega arith
in_frame_3 (suc q) h = absurd (omega arith)

one_page-IsMapped : IsMapped one_page.page_table
one_page-IsMapped = record { inside = in_frame_3; apart = λ p q h h' e. omega arith }

opened_at_3 : is_opened (kernel one_page hi (call 6 0 2 3)).files 3 ≡ ok true
unfolding is_opened test_at bit test_bit
opened_at_3 = refl

closed_at_5 : is_opened (kernel one_page hi (call 6 0 2 5)).files 5 ≡ ok false
unfolding is_opened test_at bit test_bit
closed_at_5 = refl

unix_at_3 : get_unix_handle (kernel one_page hi (call 6 0 2 3)).files 3 ≡ ok 4
unfolding get_unix_handle
unix_at_3 = refl

pub table : IsTable (kernel one_page hi (call 5 0 0 0)).files
table = record {
  sized = record { words = omega arith; countable = omega arith };
  bits = refl;
  places = refl;
}

abbrev reading : Kernel ℕ
reading = kernel one_page hi (call 6 0 2 3)

abbrev refused : Kernel ℕ
refused = kernel one_page hi (call 6 0 2 5)

read_refused_example :
    (k' : Kernel ℕ) × (exception_handler unix syscall_exception refused ≡ ok (returned k'))
    × (k'.registers pc_reg ≡ refused.registers pc_reg)
    × (k'.registers 2 ≡ minus_one)
    × (exception_handler unix syscall_exception k' ≡ assert_failed)
read_refused_example =
    read_refused unix refused refl (omega arith) (omega arith) (omega arith) closed_at_5

nachos_read_lem_example :
    (k' : Kernel ℕ) × (nachos_read unix reading ≡ ok (returned k'))
    × ((w : ℕ)
        → w < length one_page.page_table * 128
        → user_byte k' one_page w ≡ overlay 0 (7 ∷ 8 ∷ []) (user_byte reading one_page) w)
    × (k'.registers 2 ≡ 2)
    × (k'.registers pc_reg ≡ reading.registers next_pc_reg)
    × (k'.console.value ≡ reading.console.value)
    × (k'.unix ≡ 1)
nachos_read_lem_example =
    nachos_read_lem unix reading one_page 4 (7 ∷ 8 ∷ []) 1 (runs hi (call 6 0 2 3))
      one_page-IsMapped (omega arith) (omega arith) (omega arith) opened_at_3 unix_at_3 refl
      (omega arith) (omega arith)

abbrev writing : ℕ → Kernel ℕ
writing id = kernel one_page hi (call 7 0 2 id)

nachos_write-console_example :
    (k' : Kernel ℕ) × (nachos_write unix (writing 1) ≡ ok (returned k'))
    × (k'.printed ≡ [] ++ text (bytes "hi") ∷ [])
    × (k'.registers 2 ≡ 2)
    × (k'.registers pc_reg ≡ (writing 1).registers next_pc_reg)
    × (k'.console.value ≡ (writing 1).console.value)
    × (k'.frames ≡ (writing 1).frames)
nachos_write-console_example =
    nachos_write-console unix (writing 1) one_page (bytes "hi") (runs hi (call 7 0 2 1))
      (omega arith) refl (omega arith) (refl, (refl, tt)) refl (omega arith)

abbrev opening : (ℕ → ℕ) → Kernel ℕ
opening memory = kernel one_page memory (call 5 0 0 0)

nachos_open_lem_example :
    (h : ℕ) × (t : OpenFilesTable) × (nachos_open unix (opening hi)
      ≡ result h (record (opening hi) { files = t; unix = 1 }))
    × (Opened (opening hi).files 5 h t
        ⊎ (h ≡ minus_one) × ((j : ℕ) → j < 100 → bit (opening hi).files.open_files_map j ≡ true))
nachos_open_lem_example =
    nachos_open_lem unix (opening hi) one_page (bytes "hi") (runs hi (call 5 0 0 0)) (omega arith)
      (refl, (refl, (refl, tt))) (omega arith) 5 1 (omega arith) table refl (omega arith)

nachos_open_long_example : nachos_open unix (opening long_name) ≡ out_of_bounds
nachos_open_long_example =
    nachos_open_long unix (opening long_name) one_page (replicate 127 97)
      (runs long_name (call 5 0 0 0)) (omega arith) (omega arith) (omega arith) (omega arith)

abbrev creating : Kernel ℕ
creating = kernel one_page hi (call 11 1 0 0)

abbrev after : Kernel ℕ
after = write_register 4 0 (created creating 0 refl (omega arith))

sem_wait-sem_create_example :
    (nachos_sem_create creating ≡ ok (returned (created creating 0 refl (omega arith))))
    × (creating.registers 4 ≢ 0
        → nachos_sem_wait after
          ≡ result 0 (record after {
            sem_table = set after.sem_table 0 (some (record { value = 0; queue = [] }));
          }))
    × (creating.registers 4 ≡ 0
        → nachos_sem_wait after
          ≡ ok (
              asleep (record after {
                sem_table = set after.sem_table 0 (some (record { value = 1; queue = 1 ∷ [] }));
              })))
sem_wait-sem_create_example = sem_wait-sem_create creating 0 refl (omega arith)

-- A process of nine pages forks.
abbrev parent : AddrSpace
parent = record {
  page_table =
      replicate 9 (record { virtual_page = 0; physical_page = 3; valid = true; read_only = false });
  num_pages = 9;
}

abbrev forking : Kernel ℕ
forking = kernel parent hi (call 9 64 0 0)

forking-IsSized : IsSized forking.frames.mi_mapa
forking-IsSized = record { words = omega arith; countable = omega arith }

free_frames : free 32 forking.frames.mi_mapa ≡ 31
unfolding free bit test_bit
free_frames = refl

nachos_fork_lem_example :
    (child : Child) × (k' : Kernel ℕ) × (stack : List TranslationEntry) × (nachos_fork forking
      ≡ ok (returned k'))
    × (k'.children ≡ forking.children ++ child ∷ [])
    × (child.space.page_table ≡ take 1 parent.page_table ++ stack)
    × (length stack ≡ 8)
    × IsMapped stack
    × Taken forking.frames.mi_mapa stack k'.frames.mi_mapa
    × (k'.registers pc_reg ≡ forking.registers next_pc_reg)
    × (k'.console.value ≡ forking.console.value)
    × ((nachos_fork_thread child k').registers pc_reg ≡ forking.registers 4)
    × ((nachos_fork_thread child k').registers ret_addr_reg ≡ 4)
    × ((nachos_fork_thread child k').files.usage ≡ (forking.files.usage + 2) % 4294967296)
nachos_fork_lem_example =
    nachos_fork_lem unix forking parent refl (omega arith) (omega arith) forking-IsSized refl
      (omega (arith, free_frames))

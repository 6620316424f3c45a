-- ===== src/Tests/Syscalls/Connections.antt =====
-- Socket and Close: a table of open files before and after.
use distributed_ascii_server.Prelude.{
  ℕ, ◌<◌, ◌≡◌, ◌≢◌, ◌⊎◌, refl, true, false, [], ◌∷◌, arith, replicate,
}
use distributed_ascii_server.Nachos.Outcome.{ok, minus_one}
use distributed_ascii_server.Nachos.BitMap.{bit, test as test_at, test_bit}
use distributed_ascii_server.Nachos.OpenFiles.{is_opened, get_unix_handle}
use distributed_ascii_server.Nachos.OpenFiles.Laws.{IsTable, Opened}
use distributed_ascii_server.Nachos.Kernel.{Kernel, returned, pc_reg, next_pc_reg}
use distributed_ascii_server.Nachos.Syscalls.Files.{nachos_close}
use distributed_ascii_server.Nachos.Syscalls.Sockets.{nachos_socket}
use distributed_ascii_server.Nachos.Syscalls.Connections.{nachos_socket_lem, nachos_close_lem}
use distributed_ascii_server.Tests.Syscalls.{unix, call, one_page, kernel, hi, table}

-- Unix gives socket 6, and the table puts it at 4.
abbrev calling : Kernel ℕ
calling = kernel one_page hi (call 30 0 0 0)

nachos_socket_lem_example :
    (h : ℕ) × (k' : Kernel ℕ) × (nachos_socket unix calling ≡ ok (returned k'))
    × (k'.registers 2 ≡ 6)
    × (k'.registers pc_reg ≡ calling.registers next_pc_reg)
    × (Opened calling.files 6 h k'.files
        ⊎ (h ≡ minus_one) × ((j : ℕ) → j < 100 → bit calling.files.open_files_map j ≡ true))
    × (Opened calling.files 6 h k'.files
        → 6 < 100
        → 6 ≢ h
        → is_opened k'.files 6 ≡ is_opened calling.files 6)
nachos_socket_lem_example =
    nachos_socket_lem unix calling 6 1 (omega arith) table refl (omega arith)

-- Closing handle 3, behind which Unix has 4, shuts handle 4.
abbrev closing : Kernel ℕ
closing = record (kernel one_page hi (call 8 3 0 0)) {
  files = record {
    open_files = 0 ∷ 1 ∷ 2 ∷ 4 ∷ 150 ∷ replicate 95 minus_one;
    open_files_map = record { num_bits = 100; map = 31 ∷ 0 ∷ 0 ∷ 0 ∷ [] };
    usage = 1;
  };
}

closing-IsTable : IsTable closing.files
closing-IsTable = record {
  sized = record { words = omega arith; countable = omega arith };
  bits = refl;
  places = refl;
}

to_close : is_opened closing.files 3 ≡ ok true
unfolding is_opened test_at bit test_bit
to_close = refl

unix_to_close : get_unix_handle closing.files 3 ≡ ok 4
unfolding get_unix_handle
unix_to_close = refl

nachos_close_lem_example :
    (k' : Kernel ℕ) × (nachos_close unix closing ≡ ok (returned k'))
    × (k'.unix ≡ 1)
    × (k'.registers pc_reg ≡ closing.registers next_pc_reg)
    × (is_opened k'.files 3 ≡ ok false)
    × (is_opened k'.files 4 ≡ ok false)
    × (bit k'.files.open_files_map 4 ≡ bit closing.files.open_files_map 4)
    × (is_opened k'.files 2 ≡ is_opened closing.files 2)
nachos_close_lem_example =
    nachos_close_lem unix closing 4 0 1 2 closing-IsTable (omega arith) to_close unix_to_close refl
      (omega arith) (omega arith) (omega arith) (omega arith) (omega arith) (omega arith)

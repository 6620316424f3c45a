-- ===== src/Nachos/OpenFiles.antt =====
-- userprog/nachostabla.cc: the table of a process's open files.
pub mod Laws
use distributed_ascii_server.Prelude.{
  ℕ, zero, suc, ◌+◌, ◌-◌, ◌%◌, Bool, true, false, not, ◌&&◌, List, [], ◌∷◌, ltb, ◌==◌,
  if◌then◌else◌, length, get_or, set, replicate,
}
use distributed_ascii_server.Nachos.Outcome.{
  Outcome, ok, assert_failed, out_of_bounds, ◌>>=◌, minus_one,
}
use distributed_ascii_server.Nachos.BitMap
use distributed_ascii_server.Nachos.BitMap.{BitMap}

abbrev pub max_open_files : ℕ
max_open_files = 100

pub record OpenFilesTable : Type 0 where
  pub open_files : List ℕ
  pub open_files_map : BitMap
  pub usage : ℕ

-- A write to the array `openFiles`.
unfoldable pub write_file_slot : OpenFilesTable → ℕ → ℕ → Outcome OpenFilesTable
write_file_slot t i v =
    if ltb i (length t.open_files)
    then ok (record t { open_files = set t.open_files i v })
    else out_of_bounds

-- The constructor; `garbage` is what the words of the new bit map hold before they are cleared.
unfoldable pub new_open_files_table : List ℕ → Outcome OpenFilesTable
new_open_files_table garbage = BitMap.new_bit_map max_open_files garbage >>= λ b₀.
    BitMap.mark b₀ 0 >>= λ b₁. BitMap.mark b₁ 1 >>= λ b₂. BitMap.mark b₂ 2 >>= λ b₃.
    ok (record { open_files = 0 ∷ 1 ∷ 2 ∷ replicate 97 minus_one; open_files_map = b₃; usage = 1 })

unfoldable pub open_file : OpenFilesTable → ℕ → Outcome (ℕ × OpenFilesTable)
open_file t unix_handle = BitMap.find t.open_files_map >>= λ found.
    if found.0 == minus_one
    then ok (minus_one, record t { open_files_map = found.1 })
    else write_file_slot (record t { open_files_map = found.1 }) found.0 unix_handle >>= λ t'.
        ok (found.0, t')

-- The second test is made only where the first succeeds, so inside the array.
unfoldable pub is_opened : OpenFilesTable → ℕ → Outcome Bool
is_opened t nachos_handle = BitMap.test t.open_files_map nachos_handle >>= λ used.
    ok (used && not (get_or t.open_files nachos_handle 0 == minus_one))

unfoldable pub get_unix_handle : OpenFilesTable → ℕ → Outcome ℕ
get_unix_handle t nachos_handle =
    if ltb nachos_handle (length t.open_files)
    then ok (get_or t.open_files nachos_handle 0)
    else out_of_bounds

-- Close clears the handle's bit, and writes -1 at the place that the Unix handle names.
unfoldable pub close_file : OpenFilesTable → ℕ → Outcome (ℕ × OpenFilesTable)
close_file t nachos_handle = is_opened t nachos_handle >>= λ opened.
    if opened
    then (let index = get_or t.open_files nachos_handle 0 in
        BitMap.clear t.open_files_map nachos_handle >>= λ b.
        write_file_slot (record t { open_files_map = b }) index minus_one >>= λ t'. ok (index, t'))
    else ok (minus_one, t)

unfoldable pub add_thread : OpenFilesTable → OpenFilesTable
add_thread t = record t { usage = (t.usage + 1) % 4294967296 }

unfoldable pub del_thread : OpenFilesTable → OpenFilesTable
del_thread t = record t { usage = (t.usage + 4294967296 - 1) % 4294967296 }

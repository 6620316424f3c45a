-- ===== src/Nachos/Syscalls/Files.antt =====
-- userprog/exception.cc: Open, Read, Write and Close. A handler that waits for the console is cut at
-- Console->P(): what follows is a function of its own, which also goes on when a sleeping thread gets
-- the console later.
use distributed_ascii_server.Prelude.{
  ℕ, true, Option, none, some, [], ◌∷◌, ◌++◌, ◌==◌, if◌then◌else◌, length,
}
use distributed_ascii_server.Text.{Bytes, c_str}
use distributed_ascii_server.Nachos.Outcome.{
  Outcome, ok, assert_failed, out_of_bounds, ◌>>=◌, minus_one,
}
use distributed_ascii_server.Nachos.OpenFiles.{open_file, is_opened, get_unix_handle, close_file}
use distributed_ascii_server.Nachos.Kernel.{
  Kernel, Unix, Ended, returned, text, number, write_register, p_console, return_from_system_call,
  is_negative, open_for_read_write, result, console_result, read_partial, write_unix_file,
  close_unix_file,
}
use distributed_ascii_server.Nachos.Syscalls.Memory.{name_loop, buffer_loop, store_loop}

module _ {U : Type 0} where
  -- What Read does with what it got: its bytes, or -1.
  unfoldable pub store_read : ℕ → Option Bytes → Kernel U → Outcome (Ended U)
  store_read virtual_addr none k = console_result minus_one k
  store_read virtual_addr (some bytes) k = store_loop bytes virtual_addr k >>= λ stored.
      if stored.0 then console_result (length bytes) stored.1 else result minus_one stored.1

module _ {U : Type 0} (unix : Unix U) where
  unfoldable pub nachos_open : Kernel U → Outcome (Ended U)
  nachos_open k = name_loop 128 (k.registers 4) 1 k >>= λ name.
      if name.1 == 0
      then out_of_bounds
      else (open_for_read_write unix name.0 true name.2 >>= λ opened.
          if opened.0 == minus_one
          then result minus_one opened.1
          else (open_file opened.1.files opened.0 >>= λ handle.
              result handle.0 (record opened.1 { files = handle.1 })))

  -- Read behind P, once the file is known to be open.
  unfoldable pub read_opened : ℕ → ℕ → ℕ → Kernel U → Outcome (Ended U)
  read_opened unix_handle size virtual_addr k =
      let got = read_partial unix unix_handle size k in store_read virtual_addr got.0 got.1

  -- Read behind P. The first three ways out neither release the console nor move the PC.
  unfoldable pub read_locked : Kernel U → Outcome (Ended U)
  read_locked k =
      let size = k.registers 5 in
      if is_negative size
      then ok (returned (write_register 2 minus_one k))
      else (if size == 0
          then ok (returned (write_register 2 0 k))
          else (is_opened k.files (k.registers 6) >>= λ opened.
              if opened
              then (get_unix_handle k.files (k.registers 6) >>= λ unix_handle.
                  read_opened unix_handle size (k.registers 4) k)
              else ok (returned (write_register 2 minus_one k))))

  unfoldable pub nachos_read : Kernel U → Outcome (Ended U)
  nachos_read k = p_console k read_locked

  -- The switch of Write on the file's id.
  unfoldable pub write_to : ℕ → ℕ → Bytes → Kernel U → Outcome (Ended U)
  write_to id size buffer k =
      if id == 0
      then console_result minus_one k
      else (if id == 1
          then console_result size (record k { printed = k.printed ++ text (c_str buffer) ∷ [] })
          else (if id == 2
              then console_result size
                  (record k { printed = k.printed ++ number (k.registers 4) ∷ [] })
              else (is_opened k.files id >>= λ opened.
                  if opened
                  then (get_unix_handle k.files id >>= λ id2.
                      write_unix_file unix id2 buffer size k >>= λ k'. console_result id2 k')
                  else console_result minus_one k)))

  unfoldable pub write_locked : Kernel U → Outcome (Ended U)
  write_locked k = buffer_loop (k.registers 5) (k.registers 4) k >>= λ buffer. elim buffer.0 [
    | none ↦ console_result minus_one buffer.1
    | some bytes ↦ write_to (k.registers 6) (k.registers 5) bytes buffer.1
  ]

  -- `new char[size]` throws where size is below 0, and nothing catches it: like a failed ASSERT, it
  -- ends the kernel.
  unfoldable pub nachos_write : Kernel U → Outcome (Ended U)
  nachos_write k = if is_negative (k.registers 5) then assert_failed else p_console k write_locked

  unfoldable pub nachos_close : Kernel U → Outcome (Ended U)
  nachos_close k = is_opened k.files (k.registers 4) >>= λ opened.
      if opened
      then (get_unix_handle k.files (k.registers 4) >>= λ unix_handle.
          close_unix_file unix unix_handle k >>= λ k'.
          close_file k'.files (k.registers 4) >>= λ closed.
          ok (returned (return_from_system_call (record k' { files = closed.1 }))))
      else ok (returned (return_from_system_call k))

-- ===== src/Nachos/Syscalls/Reading.antt =====
-- Read: what a program gets, and what a refused Read does.
use distributed_ascii_server.Prelude.{
  ℕ, ◌+◌, ◌-◌, ◌*◌, ◌≤◌, ◌<◌, ◌≡◌, ◌≢◌, refl, ◌∙◌, true, false, some, All, arith, length, ne→==,
  lt→leb,
}
use distributed_ascii_server.Text.{Bytes}
use distributed_ascii_server.Nachos.Outcome.{Outcome, ok, assert_failed, minus_one}
use distributed_ascii_server.Nachos.OpenFiles.{is_opened, get_unix_handle}
use distributed_ascii_server.Nachos.Synch.{p_test, v}
use distributed_ascii_server.Nachos.AddrSpace.{AddrSpace}
use distributed_ascii_server.Nachos.AddrSpace.Paging.{IsMapped}
use distributed_ascii_server.Nachos.Kernel.{
  Kernel, Unix, Ended, returned, syscall_exception, write_register, p_console, v_console,
  return_from_system_call, read_partial, pc_reg, next_pc_reg,
}
use distributed_ascii_server.Nachos.Syscalls.{exception_handler, system_call}
use distributed_ascii_server.Nachos.Syscalls.Files.{
  nachos_read, read_locked, read_opened, store_read,
}
use distributed_ascii_server.Nachos.Syscalls.Memory.{store_loop}
use distributed_ascii_server.Nachos.Syscalls.UserMemory.{Runs, user_byte}
use distributed_ascii_server.Nachos.Syscalls.StoreMemory.{overlay, with_frames, store_loop_lem}

module _ {U : Type 0} (unix : Unix U) (k : Kernel U) where
  -- The kernel behind P, where the console is free.
  abbrev pub locked : Kernel U
  locked = record k { console = record k.console { value = k.console.value - 1 } }

  pub p_console_free :
      (rest : Kernel U → Outcome (Ended U)) → k.console.value ≢ 0 → p_console k rest ≡ rest locked
  unfolding p_console p_test
  p_console_free rest free = rw (ne→== k.console.value 0 free) refl

  -- Read of at least one byte from a file that is not open, while the console is free: it returns -1
  -- without moving the program counter, so that the program makes a system call again, now with -1
  -- for the call's number, and that ends the kernel at a failed assertion.
  pub read_refused :
      k.registers 2 ≡ 6
      → k.console.value ≢ 0
      → k.registers 5 ≢ 0
      → k.registers 5 < 2147483648
      → is_opened k.files (k.registers 6) ≡ ok false
      → (k' : Kernel U) × (exception_handler unix syscall_exception k ≡ ok (returned k'))
        × (k'.registers pc_reg ≡ k.registers pc_reg)
        × (k'.registers 2 ≡ minus_one)
        × (exception_handler unix syscall_exception k' ≡ assert_failed)
  unfolding exception_handler system_call nachos_read read_locked
  read_refused call free some_bytes positive closed = (
    write_register 2 minus_one locked,
    rw call (
        p_console_free (read_locked unix) free
        ∙ rw
            (lt→leb 2147483648 (k.registers 5) positive, ne→== (k.registers 5) 0 some_bytes, closed)
            refl),
    refl,
    refl,
    refl,
  )

  abbrev after_read : ℕ → U → (ℕ → ℕ) → Kernel U
  after_read n u memory =
      return_from_system_call
        (v_console (write_register 2 n (with_frames (record locked { unix = u }) memory)))

  read_opened_lem :
      (unix_handle : ℕ) (s : Bytes) (u : U) (memory : ℕ → ℕ)
      → unix.read k.unix unix_handle (k.registers 5) ≡ (some s, u)
      → store_loop s (k.registers 4) (record locked { unix = u })
        ≡ ok (true, with_frames (record locked { unix = u }) memory)
      → read_opened unix unix_handle (k.registers 5) (k.registers 4) locked
        ≡ ok (returned (after_read (length s) u memory))
  unfolding read_opened read_partial store_read
  read_opened_lem unix_handle s u memory reads ran = rw (reads, ran) refl

  -- Read of at least one byte from an open file, while the console is free, by a process whose pages
  -- can be written and have frames of their own, where Unix has bytes that fit its pages: they stand
  -- in the buffer, the rest of the program's memory is as it was, their number is in r2, the program
  -- goes on behind the call, and the console is as free as before.
  pub nachos_read_lem :
      (space : AddrSpace) (unix_handle : ℕ) (s : Bytes) (u : U)
      → Runs k space
      → IsMapped space.page_table
      → k.console.value ≢ 0
      → k.registers 5 ≢ 0
      → k.registers 5 < 2147483648
      → is_opened k.files (k.registers 6) ≡ ok true
      → get_unix_handle k.files (k.registers 6) ≡ ok unix_handle
      → unix.read k.unix unix_handle (k.registers 5) ≡ (some s, u)
      → k.registers 4 + length s ≤ length space.page_table * 128
      → All (λ byte. byte < 256) s
      → (k' : Kernel U) × (nachos_read unix k ≡ ok (returned k'))
        × ((w : ℕ)
            → w < length space.page_table * 128
            → user_byte k' space w ≡ overlay (k.registers 4) s (user_byte k space) w)
        × (k'.registers 2 ≡ length s)
        × (k'.registers pc_reg ≡ k.registers next_pc_reg)
        × (k'.console.value ≡ k.console.value)
        × (k'.unix ≡ u)
  unfolding nachos_read read_locked return_from_system_call v_console v
  nachos_read_lem space unix_handle s u runs mapped free some_bytes positive opened handle reads
        room bytes =
      let (memory, ran, seen) =
        store_loop_lem (record locked { unix = u }) space (k.registers 4) s
          (record { current = runs.current; writable = runs.writable; pages = runs.pages }) mapped
          room bytes in
      (
        after_read (length s) u memory,
        p_console_free (read_locked unix) free
            ∙ rw
                (
                  lt→leb 2147483648 (k.registers 5) positive,
                  ne→== (k.registers 5) 0 some_bytes,
                  opened,
                  handle,
                  read_opened_lem unix_handle s u memory reads ran,
                )
                refl,
        seen,
        refl,
        refl,
        omega (arith, free),
        refl,
      )

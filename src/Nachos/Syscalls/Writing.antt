-- ===== src/Nachos/Syscalls/Writing.antt =====
-- Write: what reaches the console and Unix.
use distributed_ascii_server.Prelude.{
  ℕ, ◌+◌, ◌*◌, ◌≤◌, ◌≡◌, ◌≢◌, refl, sym, ap, ◌∙◌, subst, true, some, [], ◌∷◌, ◌++◌, arith, length,
  ne→==, eq→==, lt→leb,
}
use distributed_ascii_server.Text.{Bytes}
use distributed_ascii_server.Text.Laws.{Free, c_str_whole}
use distributed_ascii_server.Nachos.Outcome.{ok}
use distributed_ascii_server.Nachos.OpenFiles.{is_opened, get_unix_handle}
use distributed_ascii_server.Nachos.Synch.{v}
use distributed_ascii_server.Nachos.AddrSpace.{AddrSpace}
use distributed_ascii_server.Nachos.Kernel.{
  Kernel, Unix, returned, text, write_register, v_console, return_from_system_call, pc_reg,
  next_pc_reg, write_unix_file,
}
use distributed_ascii_server.Nachos.Syscalls.UserMemory.{Runs, Sees, buffer_loop_lem}
use distributed_ascii_server.Nachos.Syscalls.Files.{nachos_write, write_locked, write_to}
use distributed_ascii_server.Nachos.Syscalls.Memory.{buffer_loop}
use distributed_ascii_server.Nachos.Syscalls.Reading.{locked, p_console_free}

module _ {U : Type 0} (unix : Unix U) (k : Kernel U) (space : AddrSpace) (s : Bytes)
    (runs : Runs k space) (free : k.console.value ≢ 0) (size : k.registers 5 ≡ length s)
    (room : k.registers 4 + length s ≤ length space.page_table * 128)
    (sees : Sees k space (k.registers 4) s) where
  read_whole :
      buffer_loop (k.registers 5) (k.registers 4) (locked unix k) ≡ ok (some s, locked unix k)
  read_whole =
      subst (λ (n : ℕ). buffer_loop n (k.registers 4) (locked unix k) ≡ ok (some s, locked unix k))
        (sym size)
        (buffer_loop_lem (locked unix k) space (k.registers 4) s
          (record { current = runs.current; writable = runs.writable; pages = runs.pages }) room
          sees)

  -- Write hands the bytes of the program's buffer to the switch on the file's id.
  write_switch : nachos_write unix k ≡ write_to unix (k.registers 6) (length s) s (locked unix k)
  unfolding nachos_write write_locked
  write_switch = rw (lt→leb 2147483648 (k.registers 5) (omega (arith, size, runs.pages))) (
      p_console_free unix k (write_locked unix) free
      ∙ rw read_whole refl
      ∙ ap (λ (n : ℕ). write_to unix (k.registers 6) n s (locked unix k)) size)

  -- Write of a text without a NUL from the program's pages on the standard output, while the console
  -- is free: the text is printed, its length is in r2, memory is as it was, the program goes on
  -- behind the call, and the console is as free as before.
  pub nachos_write-console :
      k.registers 6 ≡ 1
      → Free 0 s
      → (k' : Kernel U) × (nachos_write unix k ≡ ok (returned k'))
        × (k'.printed ≡ k.printed ++ text s ∷ [])
        × (k'.registers 2 ≡ length s)
        × (k'.registers pc_reg ≡ k.registers next_pc_reg)
        × (k'.console.value ≡ k.console.value)
        × (k'.frames ≡ k.frames)
  unfolding write_to return_from_system_call v_console v
  nachos_write-console output clean = (
    return_from_system_call (
        v_console (
          write_register 2 (length s)
            (record (locked unix k) { printed = k.printed ++ text s ∷ [] }))),
    write_switch ∙ rw (output, c_str_whole s clean) refl,
    refl,
    refl,
    refl,
    omega (arith, free),
    refl,
  )

  -- Write from the program's pages on an open file from handle 3 on, while the console is free and
  -- where Unix writes all: the bytes go to the file's Unix handle, nothing is printed, the program
  -- goes on behind the call, and the console is as free as before. In r2 is the Unix handle, and not
  -- how many bytes were written.
  pub nachos_write-file :
      (unix_handle : ℕ) (u : U)
      → 3 ≤ k.registers 6
      → is_opened k.files (k.registers 6) ≡ ok true
      → get_unix_handle k.files (k.registers 6) ≡ ok unix_handle
      → unix.write k.unix unix_handle s ≡ (length s, u)
      → (k' : Kernel U) × (nachos_write unix k ≡ ok (returned k'))
        × (k'.unix ≡ u)
        × (k'.registers 2 ≡ unix_handle)
        × (k'.registers pc_reg ≡ k.registers next_pc_reg)
        × (k'.console.value ≡ k.console.value)
        × (k'.printed ≡ k.printed)
  unfolding write_to write_unix_file return_from_system_call v_console v
  nachos_write-file unix_handle u other opened handle writes = (
    return_from_system_call
        (v_console (write_register 2 unix_handle (record (locked unix k) { unix = u }))),
    write_switch
        ∙ rw
            (
              ne→== (k.registers 6) 0 (omega arith),
              ne→== (k.registers 6) 1 (omega arith),
              ne→== (k.registers 6) 2 (omega arith),
              opened,
              handle,
              writes,
              eq→== (length s) (length s) refl,
            )
            refl,
    refl,
    refl,
    refl,
    omega (arith, free),
    refl,
  )

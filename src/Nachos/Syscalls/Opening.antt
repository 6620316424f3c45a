-- ===== src/Nachos/Syscalls/Opening.antt =====
-- Open: the name that Unix gets, and the handle that the program gets.
use distributed_ascii_server.Prelude.{
  ℕ, ◌+◌, ◌-◌, ◌*◌, ◌≤◌, ◌<◌, ◌≡◌, refl, true, [], ◌∷◌, ◌++◌, arith, length, ne→==, lt→leb, le→leb,
  inl, inr, ◌⊎◌, ltb, ltb→lt, ltb→le, Bool-cases,
}
use distributed_ascii_server.Text.{Bytes}
use distributed_ascii_server.Text.Laws.{Free}
use distributed_ascii_server.Nachos.Outcome.{assert_failed, out_of_bounds, minus_one}
use distributed_ascii_server.Nachos.OpenFiles.{OpenFilesTable}
use distributed_ascii_server.Nachos.OpenFiles.Laws.{IsTable, Opened, open_file-Opened}
use distributed_ascii_server.Nachos.BitMap.{bit}
use distributed_ascii_server.Nachos.AddrSpace.{AddrSpace}
use distributed_ascii_server.Nachos.Kernel.{Kernel, Unix, open_for_read_write, result}
use distributed_ascii_server.Nachos.Syscalls.UserMemory.{Runs, Sees, name_loop_lem, name_loop_long}
use distributed_ascii_server.Nachos.Syscalls.Files.{nachos_open}

module _ {U : Type 0} (unix : Unix U) (k : Kernel U) (space : AddrSpace) (s : Bytes)
    (runs : Runs k space) (room : k.registers 4 + length s < length space.page_table * 128)
    (sees : Sees k space (k.registers 4) (s ++ 0 ∷ [])) (clean : Free 0 s) where
  -- Open of a name of at most 126 bytes that ends in the program's pages, and that Unix can open: Unix
  -- gets exactly the text that stands in the program's memory, and the program gets a handle that was
  -- free, with Unix's file behind it, or -1 where all 100 are used.
  pub nachos_open_lem :
      (fd : ℕ) (u : U)
      → length s ≤ 126
      → IsTable k.files
      → unix.open_rw k.unix s ≡ (fd, u)
      → fd < 2147483648
      → (h : ℕ) × (t : OpenFilesTable) × (nachos_open unix k
          ≡ result h (record k { files = t; unix = u }))
        × (Opened k.files fd h t
            ⊎ (h ≡ minus_one) × ((j : ℕ) → j < 100 → bit k.files.open_files_map j ≡ true))
  unfolding nachos_open open_for_read_write
  nachos_open_lem fd u short table opens good =
      let (h, t, ran, found) = open_file-Opened k.files fd table (omega arith) in
      (
        h,
        t,
        rw
            (
              name_loop_lem k space 128 (k.registers 4) 1 s runs room sees clean (omega arith),
              ne→== (128 - length s - 1) 0 (omega arith),
              opens,
              lt→leb 2147483648 fd good,
              ne→== fd minus_one (omega arith),
              ran,
            )
            refl,
        found,
      )

  -- Open of a name that Unix cannot open ends the kernel at a failed assertion.
  pub nachos_open_missing :
      (fd : ℕ) (u : U)
      → length s ≤ 126
      → unix.open_rw k.unix s ≡ (fd, u)
      → 2147483648 ≤ fd
      → nachos_open unix k ≡ assert_failed
  unfolding nachos_open open_for_read_write
  nachos_open_missing fd u short opens bad =
      rw
        (
          name_loop_lem k space 128 (k.registers 4) 1 s runs room sees clean (omega arith),
          ne→== (128 - length s - 1) 0 (omega arith),
          opens,
          le→leb 2147483648 fd bad,
        )
        refl

  -- Open of a name of 127 bytes or more, in the program's pages, writes behind the kernel's buffer of
  -- 128 bytes.
  pub nachos_open_long : 127 ≤ length s → nachos_open unix k ≡ out_of_bounds
  unfolding nachos_open
  nachos_open_long long = elim (Bool-cases (ltb 127 (length s))) [
    | inl longer ↦
        rw
          (name_loop_long k space 128 (k.registers 4) 1 s runs room sees clean
            (ltb→lt 127 (length s) longer))
          refl
    | inr equal ↦
        let full : 128 - length s - 1 ≡ 0 = omega (arith, ltb→le 127 (length s) equal) in
        rw
          (
            name_loop_lem k space 128 (k.registers 4) 1 s runs room sees clean
                (omega (arith, ltb→le 127 (length s) equal)),
            full,
          )
          refl
  ]

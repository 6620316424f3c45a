-- ===== src/Nachos/Syscalls/Memory.antt =====
-- userprog/exception.cc: the loops by which handlers read and write the user program's memory.
use distributed_ascii_server.Prelude.{
  ℕ, zero, suc, ◌+◌, Bool, true, false, Option, none, some, [], ◌∷◌, ◌==◌, if◌then◌else◌,
}
use distributed_ascii_server.Text.{Bytes}
use distributed_ascii_server.Nachos.Outcome.{Outcome, ok, out_of_bounds, ◌>>=◌}
use distributed_ascii_server.Nachos.AddrSpace.{word}
use distributed_ascii_server.Nachos.Kernel.{Kernel, read_mem, write_mem}

-- The value that ReadMem leaves in `c`.
abbrev pub value_or : Option ℕ → ℕ → ℕ
value_or none c = c
value_or (some byte) c = byte

module _ {U : Type 0} where
  -- The loop of Open that reads the name, with `room` places of `name[128]` left: the name, and the
  -- places that are left behind its NUL. A failed ReadMem leaves `c` as it was.
  unfoldable pub name_loop : ℕ → ℕ → ℕ → Kernel U → Outcome (Bytes × ℕ × Kernel U)
  name_loop zero direc c k = read_mem k direc >>= λ got. out_of_bounds
  name_loop (suc room) direc c k = read_mem k direc >>= λ got.
      let c' = value_or got.0 c in
      let more = name_loop room (word (direc + 1)) c' got.1 in
      if c' == 0 then ok ([], room, got.1) else more >>= λ rest. ok (c' ∷ rest.0, rest.1, rest.2)

  -- buffer[i] = c for `size` bytes from `direc` on; none where ReadMem fails.
  unfoldable pub buffer_loop : ℕ → ℕ → Kernel U → Outcome (Option Bytes × Kernel U)
  buffer_loop zero direc k = ok (some [], k)
  buffer_loop (suc size) direc k = read_mem k direc >>= λ got. elim got.0 [
    | none ↦ ok (none, got.1)
    | some byte ↦ buffer_loop size (word (direc + 1)) got.1 >>= λ rest. elim rest.0 [
      | none ↦ ok (none, rest.1)
      | some bytes ↦ ok (some (byte ∷ bytes), rest.1)
    ]
  ]

  -- The bytes that were read, to virtual addresses from `virtual_addr` on; false where WriteMem fails.
  unfoldable pub store_loop : Bytes → ℕ → Kernel U → Outcome (Bool × Kernel U)
  store_loop [] virtual_addr k = ok (true, k)
  store_loop (byte ∷ bytes) virtual_addr k = write_mem k virtual_addr byte >>= λ stored.
      let rest = store_loop bytes (word (virtual_addr + 1)) stored.1 in
      if stored.0 then rest else ok (false, stored.1)

  -- The IP address of Connect: at most 16 bytes, up to a NUL; none where ReadMem fails.
  unfoldable pub ip_loop : ℕ → ℕ → Kernel U → Outcome (Option Bytes × Kernel U)
  ip_loop zero direc k = ok (some [], k)
  ip_loop (suc rounds) direc k = read_mem k direc >>= λ got. elim got.0 [
    | none ↦ ok (none, got.1)
    | some byte ↦
        let more = ip_loop rounds (word (direc + 1)) got.1 in
        if byte == 0
        then ok (some [], got.1)
        else more >>= λ rest. elim rest.0 [
          | none ↦ ok (none, rest.1)
          | some bytes ↦ ok (some (byte ∷ bytes), rest.1)
        ]
  ]

-- ===== src/Nachos/Syscalls/Connections.antt =====
-- Socket, Connect and Close: what the program and Unix get, and what the open files table has then.
use distributed_ascii_server.Prelude.{
  ℕ, ◌+◌, ◌*◌, ◌%◌, ◌<◌, ◌≡◌, ◌≢◌, refl, ◌∙◌, true, false, [], ◌∷◌, ◌++◌, ◌⊎◌, not, ◌==◌,
  if◌then◌else◌, arith, length, ne→==, lt→leb,
}
use distributed_ascii_server.Text.{Bytes}
use distributed_ascii_server.Text.Laws.{Free}
use distributed_ascii_server.Nachos.Outcome.{ok, minus_one}
use distributed_ascii_server.Nachos.BitMap.{bit}
use distributed_ascii_server.Nachos.OpenFiles.{is_opened, get_unix_handle}
use distributed_ascii_server.Nachos.OpenFiles.Laws.{
  IsTable, Opened, open_file-Opened, close_file-closed,
}
use distributed_ascii_server.Nachos.AddrSpace.{AddrSpace}
use distributed_ascii_server.Nachos.Synch.{v}
use distributed_ascii_server.Nachos.Kernel.{
  Kernel, Unix, returned, v_console, return_from_system_call, pc_reg, next_pc_reg, write_register,
  inet, inet6_any, close_unix_file,
}
use distributed_ascii_server.Nachos.Syscalls.Reading.{locked, p_console_free}
use distributed_ascii_server.Nachos.Syscalls.Sockets.{
  socket_locked, nachos_socket, connect_locked, nachos_connect,
}
use distributed_ascii_server.Nachos.Syscalls.Files.{nachos_close}
use distributed_ascii_server.Nachos.Syscalls.UserMemory.{Runs, Sees, ip_loop_lem}

-- Socket while the console is free, where Unix gives a socket: the program gets Unix's number for it
-- and goes on behind the call. The table has the socket at a handle that was free, or at none where
-- all 100 are used. The number that the program gets is not that handle: where the table has the
-- socket, and the number is below 100 and not by chance that handle, it is open as a handle afterwards
-- exactly if it was before.
pub nachos_socket_lem :
    {U : Type 0} (unix : Unix U) (k : Kernel U) (fd : ℕ) (u : U)
    → k.console.value ≢ 0
    → IsTable k.files
    → unix.socket k.unix
        (if k.registers 4 == 0 then 2 else 10)
        (if k.registers 5 == 0 then 1 else 2)
      ≡ (fd, u)
    → fd ≢ minus_one
    → (h : ℕ) × (k' : Kernel U) × (nachos_socket unix k ≡ ok (returned k'))
      × (k'.registers 2 ≡ fd)
      × (k'.registers pc_reg ≡ k.registers next_pc_reg)
      × (Opened k.files fd h k'.files
          ⊎ (h ≡ minus_one) × ((j : ℕ) → j < 100 → bit k.files.open_files_map j ≡ true))
      × (Opened k.files fd h k'.files
          → fd < 100
          → fd ≢ h
          → is_opened k'.files fd ≡ is_opened k.files fd)
unfolding nachos_socket socket_locked return_from_system_call v_console v
nachos_socket_lem {U} unix k fd u free_console table made good =
    let (h, t, ran, found) = open_file-Opened k.files fd table good in
    let k₁ : Kernel U = record k { ipv6 = not (k.registers 4 == 0) } in
    (
      h,
      return_from_system_call
          (v_console (write_register 2 fd (record (locked unix k₁) { unix = u; files = t }))),
      p_console_free unix k₁ (socket_locked unix) free_console
          ∙ rw (made, ne→== fd minus_one good, ran) refl,
      refl,
      refl,
      found,
      λ o small other. o.others fd small other,
    )

-- Connect with an address of at most 15 bytes that ends in the program's pages, while the console is
-- free: Unix gets the number that the program gave, as it is, with the port's low 16 bits and the text
-- that stands in memory, or any address where the last Socket was of IPv6. What Unix returns is in r2,
-- the open files are as before, the program goes on behind the call, and the console is as free as
-- before.
pub nachos_connect_lem :
    {U : Type 0} (unix : Unix U) (k : Kernel U) (space : AddrSpace) (s : Bytes) (st : ℕ) (u : U)
    → Runs k space
    → k.registers 5 + length s < length space.page_table * 128
    → Sees k space (k.registers 5) (s ++ 0 ∷ [])
    → Free 0 s
    → length s < 16
    → k.console.value ≢ 0
    → unix.connect k.unix
        (k.registers 4)
        (if k.ipv6 then inet6_any (k.registers 6 % 65536) else inet (k.registers 6 % 65536) s)
      ≡ (st, u)
    → (k' : Kernel U) × (nachos_connect unix k ≡ ok (returned k'))
      × (k'.registers 2 ≡ st)
      × (k'.unix ≡ u)
      × (k'.files ≡ k.files)
      × (k'.registers pc_reg ≡ k.registers next_pc_reg)
      × (k'.console.value ≡ k.console.value)
unfolding nachos_connect connect_locked return_from_system_call v_console v
nachos_connect_lem unix k space s st u runs room sees clean short free_console made = (
  return_from_system_call (v_console (write_register 2 st (record (locked unix k) { unix = u }))),
  p_console_free unix k (connect_locked unix) free_console
      ∙ rw
          (
            ip_loop_lem (locked unix k) space 16 (k.registers 5) s
                (record { current = runs.current; writable = runs.writable; pages = runs.pages })
                room sees clean short,
            made,
          )
          refl,
  refl,
  refl,
  refl,
  refl,
  omega (arith, free_console),
)

-- Close of an open handle below 100, whose Unix handle is below 100 too and another number, and whose
-- file Unix closes: Unix gets the Unix handle, and the program goes on behind the call with its handle
-- closed. The handle with the Unix handle's number is shut as well, keeping its bit, and any third
-- handle below 100 is as it was.
pub nachos_close_lem :
    {U : Type 0} (unix : Unix U) (k : Kernel U) (fd r : ℕ) (u : U) (j : ℕ)
    → IsTable k.files
    → k.registers 4 < 100
    → is_opened k.files (k.registers 4) ≡ ok true
    → get_unix_handle k.files (k.registers 4) ≡ ok fd
    → unix.close k.unix fd ≡ (r, u)
    → r < 2147483648
    → fd < 100
    → fd ≢ k.registers 4
    → j < 100
    → j ≢ k.registers 4
    → j ≢ fd
    → (k' : Kernel U) × (nachos_close unix k ≡ ok (returned k'))
      × (k'.unix ≡ u)
      × (k'.registers pc_reg ≡ k.registers next_pc_reg)
      × (is_opened k'.files (k.registers 4) ≡ ok false)
      × (is_opened k'.files fd ≡ ok false)
      × (bit k'.files.open_files_map fd ≡ bit k.files.open_files_map fd)
      × (is_opened k'.files j ≡ is_opened k.files j)
unfolding nachos_close close_unix_file return_from_system_call
nachos_close_lem unix k fd r u j table small opened handle done good low differ low_j not_h not_u =
    let (t, ran, shut, shut_fd, kept, other) =
      close_file-closed k.files (k.registers 4) fd table small opened handle j low differ low_j
        not_h not_u in
    (
      return_from_system_call (record k { unix = u; files = t }),
      rw (opened, handle, done, lt→leb 2147483648 r good, ran) refl,
      refl,
      refl,
      shut,
      shut_fd,
      kept,
      other,
    )

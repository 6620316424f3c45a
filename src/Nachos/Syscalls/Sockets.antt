-- ===== src/Nachos/Syscalls/Sockets.antt =====
-- userprog/exception.cc: Socket and Connect, cut at Console->P().
use distributed_ascii_server.Prelude.{not, none, some, ◌%◌, ◌==◌, if◌then◌else◌}
use distributed_ascii_server.Nachos.Outcome.{Outcome, ◌>>=◌, minus_one}
use distributed_ascii_server.Nachos.OpenFiles.{open_file}
use distributed_ascii_server.Nachos.Kernel.{
  Kernel, Unix, Ended, inet, inet6_any, p_console, console_result,
}
use distributed_ascii_server.Nachos.Syscalls.Memory.{ip_loop}

module _ {U : Type 0} (unix : Unix U) where
  -- AF_INET is 2 and AF_INET6 10; SOCK_STREAM is 1 and SOCK_DGRAM 2.
  unfoldable pub socket_locked : Kernel U → Outcome (Ended U)
  socket_locked k =
      let family = if k.registers 4 == 0 then 2 else 10 in
      let type = if k.registers 5 == 0 then 1 else 2 in
      let made = unix.socket k.unix family type in
      let k' = record k { unix = made.1 } in
      if made.0 == minus_one
      then console_result minus_one k'
      else (open_file k'.files made.0 >>= λ handle.
          console_result made.0 (record k' { files = handle.1 }))

  unfoldable pub nachos_socket : Kernel U → Outcome (Ended U)
  nachos_socket k = p_console (record k { ipv6 = not (k.registers 4 == 0) }) socket_locked

  -- The address that Connect asks for: with IPv6 the text is not used.
  unfoldable pub connect_locked : Kernel U → Outcome (Ended U)
  connect_locked k = ip_loop 16 (k.registers 5) k >>= λ ip. elim ip.0 [
    | none ↦ console_result minus_one ip.1
    | some bytes ↦
        let port = k.registers 6 % 65536 in
        let address = if k.ipv6 then inet6_any port else inet port bytes in
        let st = unix.connect ip.1.unix (k.registers 4) address in
        console_result st.0 (record ip.1 { unix = st.1 })
  ]

  unfoldable pub nachos_connect : Kernel U → Outcome (Ended U)
  nachos_connect k = p_console k connect_locked

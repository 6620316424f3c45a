-- ===== src/Sockets/Stream.antt =====
-- Socket.cpp: the plain socket. A constructor gets what the memory of the object held.
use distributed_ascii_server.Prelude.{ℕ, Bool}
use distributed_ascii_server.Prelude.Int.{ℤ, to_size}
use distributed_ascii_server.Text.{Bytes, c_str}
use distributed_ascii_server.Sockets.Net.{
  Net, Ended, returned, thrown, aborted, Call, pure, call, ◌>>=◌,
}
use distributed_ascii_server.Sockets.VSocket.{
  VSocket, build_socket, build_socket_wth_id, delete_vsocket, establish_connection,
  establish_connection_service, wait_for_connection,
}

module _ {U : Type 0} (net : Net U) where
  -- An exception in a constructor runs the destructor of the base.
  abbrev pub constructed : Ended (Unit {0}) × (VSocket × U) → Ended VSocket × U
  constructed (returned _, (this, u)) = (returned this, u)
  constructed (thrown what, (this, u)) =
      let (_, u') = delete_vsocket net this u in (thrown what, u')
  constructed (aborted, (this, u)) = (aborted, u)

  unfoldable pub new_socket : VSocket → ℕ → Bool → Call U VSocket
  unfolding build_socket delete_vsocket
  new_socket memory t ipv6 u = constructed (build_socket net t ipv6 (memory, u))

  unfoldable pub new_socket_id : VSocket → ℤ → VSocket
  unfolding build_socket_wth_id
  new_socket_id this id = build_socket_wth_id net this id

  -- ~Socket is empty, and the base's destructor follows.
  unfoldable pub delete_socket : VSocket → Call U (Unit {0})
  unfolding delete_vsocket
  delete_socket this = delete_vsocket net this

  unfoldable pub make_connection : VSocket → Bytes → ℕ → Call U ℤ
  make_connection this hostip port = establish_connection net this hostip port

  unfoldable pub make_connection_service : VSocket → Bytes → Bytes → Call U ℤ
  make_connection_service this host service = establish_connection_service net this host service

  -- The int of `read` becomes a size_t, so that -1 is 2 ^ 64 - 1.
  unfoldable pub read : VSocket → ℕ → Call U (ℕ × Bytes)
  read this size = do
    success ← call (λ u. net.read u this.id_socket size)
    pure (to_size success.0, success.1)

  unfoldable pub write : VSocket → Bytes → Call U ℕ
  write this buffer = do
    success ← call (λ u. net.write u this.id_socket buffer)
    pure (to_size success)

  unfoldable pub write_text : VSocket → Bytes → Call U ℕ
  unfolding write
  write_text this text = write this (c_str text)

  -- `new` gives memory that holds anything.
  unfoldable pub accept_connection : VSocket → VSocket → Call U VSocket
  unfolding wait_for_connection new_socket_id
  accept_connection this memory = do
    id ← wait_for_connection net this
    pure (new_socket_id memory id)

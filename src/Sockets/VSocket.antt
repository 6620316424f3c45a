-- ===== src/Sockets/VSocket.antt =====
-- VSocket.cpp: the calls of the operating system behind every socket object.
use distributed_ascii_server.Prelude.{
  ℕ, Bool, true, false, Option, none, some, List, [], ◌∷◌, replicate, ◌==◌, if◌then◌else◌,
}
use distributed_ascii_server.Prelude.Int.{
  ℤ, pos, minus_one, is_minus_one, is_zero, is_negative, to_size,
}
use distributed_ascii_server.Text.{Bytes, bytes}
use distributed_ascii_server.Sockets.Net.{
  af_inet, af_inet6, sock_stream, sock_dgram, SocketAddress, htons, Converted, converted,
  not_an_address, unknown_family, Net, Call, pure, throw, throw_if, call, ◌>>=◌, ◌>>◌,
}

-- IPv6, port and type are never written.
pub record VSocket : Type 0 where
  pub id_socket : ℤ
  pub family : ℕ

-- What inet_pton leaves in a structure that was filled with zeros.
abbrev pub written : ℕ → Converted → Bytes
written n (converted address) = address
written n not_an_address = replicate n 0
written n unknown_family = replicate n 0

abbrev pub is_unknown : Converted → Bool
is_unknown (converted address) = false
is_unknown not_an_address = false
is_unknown unknown_family = true

module _ {U : Type 0} (net : Net U) where
  -- The state has the object, whose fields hold anything at first.
  unfoldable pub open_socket : ℕ → Bool → Call (VSocket × U) (Unit {0})
  open_socket type ipv6 (this, u) =
      let family : ℕ = if ipv6 then af_inet6 else af_inet in
      let (id, u') = net.socket u family type in
      throw_if (is_minus_one id) (bytes "VSocket::BuildSocket, socket") tt
        (record this { id_socket = id; family = family }, u')

  unfoldable pub build_socket : ℕ → Bool → Call (VSocket × U) (Unit {0})
  unfolding open_socket
  build_socket t ipv6 =
      if t == b's'
      then open_socket sock_stream ipv6
      else if t == b'd'
      then open_socket sock_dgram ipv6
      else throw (bytes "VSocket::BuildSocket, invalid socket type")

  unfoldable pub build_socket_wth_id : VSocket → ℤ → VSocket
  build_socket_wth_id this id = record this { id_socket = id }

  unfoldable pub close_socket : VSocket → Call U (Unit {0})
  close_socket this u = call (λ v. (tt, net.close v this.id_socket)) u

  unfoldable pub delete_vsocket : VSocket → Call U (Unit {0})
  unfolding close_socket
  delete_vsocket this = close_socket this

  -- One family of EstablishConnection( hostip, port ): the address has n bytes.
  unfoldable pub connect_ip : VSocket → ℕ → Bytes → ℕ → Bytes → Call U ℤ
  connect_ip this n hostip port what = do
    let result = net.inet_pton this.family hostip
    throw_if (is_unknown result) (bytes "VSocket::DoConnect, inet_pton") tt
    let host : SocketAddress = record {
      family = this.family;
      port = htons port;
      address = written n result;
    }
    connection ← call (λ u. net.connect u this.id_socket host)
    throw_if (is_minus_one connection) what connection

  unfoldable pub establish_connection : VSocket → Bytes → ℕ → Call U ℤ
  unfolding connect_ip
  establish_connection this hostip port =
      if this.family == af_inet
      then connect_ip this 4 hostip port (bytes "VSocket::DoConnect, connect IPV4")
      else if this.family == af_inet6
      then connect_ip this 16 hostip port (bytes "VSocket::DoConnect, connect IPV6")
      else throw (bytes "VSocket::EstablishConnection, invalid socket domain")

  -- for (rp = result; rp; rp = rp->ai_next): whether an address was connected.
  unfoldable pub connect_loop : VSocket → List SocketAddress → U → Bool × U
  connect_loop this [] u = (false, u)
  connect_loop this (address ∷ addresses) u =
      let (st, u') = net.connect u this.id_socket address in
      let rest = connect_loop this addresses u' in if is_zero st then (true, u') else rest

  -- What EstablishConnection( host, service ) does with the answer of getaddrinfo.
  unfoldable pub connect_any : VSocket → Option (List SocketAddress) → Call U ℤ
  unfolding connect_loop
  connect_any this none u = pure minus_one u
  connect_any this (some addresses) u =
      let (connected, u') = connect_loop this addresses u in
      pure (if connected then pos 0 else minus_one) u'

  unfoldable pub establish_connection_service : VSocket → Bytes → Bytes → Call U ℤ
  unfolding connect_any
  establish_connection_service this host service = do
    answer ← call (λ u. net.getaddrinfo u this.family host service)
    connect_any this answer

  unfoldable pub bind_any : VSocket → ℕ → ℕ → Call U ℤ
  bind_any this n port = do
    let any : SocketAddress = record {
      family = this.family;
      port = htons port;
      address = replicate n 0;
    }
    st ← call (λ u. net.bind u this.id_socket any)
    throw_if (is_minus_one st) (bytes "VSocket::Bind") st

  abbrev bind_family : VSocket → ℕ → Call U ℤ
  bind_family this port =
      if this.family == af_inet
      then bind_any this 4 port
      else if this.family == af_inet6
      then bind_any this 16 port
      else throw (bytes "VSocket::Bind, invalid socket domain")

  unfoldable pub bind : VSocket → ℕ → Call U ℤ
  unfolding bind_any
  bind this port = do
    reuse ← call (λ u. net.set_reuse_addr u this.id_socket)
    throw_if (is_negative reuse) (bytes "VSocket::Bind - setsockopt(SO_REUSEADDR) failed") tt
    bind_family this port

  -- sizeof the address structure of the family
  abbrev pub with_length : {A : Type 0} → VSocket → (ℕ → Call U A) → Call U A
  with_length this k =
      if this.family == af_inet
      then k 16
      else if this.family == af_inet6
      then k 28
      else throw (bytes "VSocket::recvFrom: Invalid socket family")

  unfoldable pub send_to : VSocket → Bytes → SocketAddress → Call U ℕ
  send_to this buffer addr = with_length this (λ addr_len. do
    st ← call (λ u. net.sendto u this.id_socket buffer addr addr_len)
    throw_if (is_minus_one st) (bytes "VSocket::sendTo") (to_size st))

  unfoldable pub recv_from : VSocket → ℕ → Call U (ℕ × Bytes)
  recv_from this size = with_length this (λ addr_len. do
    result ← call (λ u. net.recvfrom u this.id_socket size)
    throw_if (is_minus_one result.0) (bytes "VSocket::recvFrom") (to_size result.0, result.1))

  unfoldable pub mark_passive : VSocket → ℕ → Call U ℤ
  mark_passive this backlog = do
    st ← call (λ u. net.listen u this.id_socket backlog)
    throw_if (is_minus_one st) (bytes "VSocket::MarkPassive") st

  unfoldable pub wait_for_connection : VSocket → Call U ℤ
  wait_for_connection this u = call (λ v. net.accept v this.id_socket) u

  unfoldable pub shutdown : VSocket → ℕ → Call U ℤ
  shutdown this mode = do
    st ← call (λ u. net.shutdown u this.id_socket mode)
    throw_if (is_minus_one st) (bytes "VSocket::Shutdown") st

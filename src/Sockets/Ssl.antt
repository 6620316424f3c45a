-- ===== src/Sockets/Ssl.antt =====
-- SSLSocket.cpp: the socket that speaks TLS, over OpenSSL, which is a parameter. ShowCerts and
-- GetCipher only print and pass on what OpenSSL answers.
use distributed_ascii_server.Prelude.{ℕ, Bool, false, ◌==◌, not, if◌then◌else◌}
use distributed_ascii_server.Prelude.Int.{ℤ, pos, is_minus_one, is_zero, is_at_most_zero, to_size}
use distributed_ascii_server.Text.{Bytes, bytes, c_str}
use distributed_ascii_server.Sockets.Net.{
  Net, Ended, returned, thrown, aborted, Call, pure, throw_if, call, ◌>>=◌, ◌>>◌,
}
use distributed_ascii_server.Sockets.VSocket.{
  VSocket, build_socket, build_socket_wth_id, close_socket, delete_vsocket, establish_connection,
  establish_connection_service, wait_for_connection,
}

-- A pointer to an SSL_CTX or an SSL; 0 is nullptr.
abbrev pub Pointer : Type 0
Pointer = ℕ

pub record OpenSsl (U : Type 0) : Type 0 where
  pub tls_client_method : Pointer
  pub tls_server_method : Pointer
  pub library_init : U → U
  pub ctx_new : U → Pointer → Pointer × U
  pub ctx_free : U → Pointer → U
  pub ssl_new : U → Pointer → Pointer × U
  pub ssl_free : U → Pointer → U
  pub set_fd : U → Pointer → ℤ → ℤ × U
  pub ssl_connect : U → Pointer → ℤ × U
  pub ssl_accept : U → Pointer → ℤ × U
  pub ssl_read : U → Pointer → ℕ → (ℤ × Bytes) × U
  pub ssl_write : U → Pointer → Bytes → ℤ × U
  pub use_certificate_file : U → Pointer → Bytes → ℤ × U
  pub use_private_key_file : U → Pointer → Bytes → ℤ × U
  pub check_private_key : U → Pointer → ℤ × U

pub record SslSocket : Type 0 where
  pub socket : VSocket
  pub ssl_context : Pointer
  pub ssl_struct : Pointer

module _ {U : Type 0} where
  abbrev pub abort_if : Bool → Call U (Unit {0})
  abort_if test u = (if test then aborted else returned tt, u)

  -- What a member function works on: the object and the system.
  abbrev pub get_this : Call (SslSocket × U) SslSocket
  get_this (this, u) = (returned this, (this, u))

  abbrev pub set_context : Pointer → Call (SslSocket × U) (Unit {0})
  set_context p (this, u) = (returned tt, (record this { ssl_context = p }, u))

  abbrev pub set_struct : Pointer → Call (SslSocket × U) (Unit {0})
  set_struct p (this, u) = (returned tt, (record this { ssl_struct = p }, u))

  abbrev pub on_system : {A : Type 0} → Call U A → Call (SslSocket × U) A
  on_system m (this, u) = let (r, u') = m u in (r, (this, u'))

module _ {U : Type 0} (net : Net U) (ssl : OpenSsl U) where
  unfoldable pub init_client_context : Call (SslSocket × U) (Unit {0})
  init_client_context = do
    let method = ssl.tls_client_method
    throw_if (method == 0) (bytes "SSLSocket::InitContext( bool )") tt
    context ← on_system (call (λ u. ssl.ctx_new u method))
    throw_if (context == 0) (bytes "SSLSocket::InitContext( bool )") tt
    set_context context

  unfoldable pub init : Call (SslSocket × U) (Unit {0})
  unfolding init_client_context
  init = do
    init_client_context
    this ← get_this
    s ← on_system (call (λ u. ssl.ssl_new u this.ssl_context))
    throw_if (s == 0) (bytes "SSLSocket::Init( bool ): Error al crear SSL") tt
    set_struct s

  unfoldable pub init_server_context : Call (SslSocket × U) (Unit {0})
  init_server_context = do
    on_system (call (λ u. (tt, ssl.library_init u)))
    context ← on_system (call (λ u. ssl.ctx_new u ssl.tls_server_method))
    throw_if (context == 0) (bytes "SSLSocket::InitContext( bool )") tt
    set_context context

  unfoldable pub load_certificates : SslSocket → Bytes → Bytes → Call U (Unit {0})
  load_certificates this cert_file_name key_file_name = do
    let context = this.ssl_context
    certificate ← call (λ u. ssl.use_certificate_file u context cert_file_name)
    abort_if (is_at_most_zero certificate)
    key ← call (λ u. ssl.use_private_key_file u context key_file_name)
    abort_if (is_at_most_zero key)
    valid ← call (λ u. ssl.check_private_key u context)
    abort_if (is_zero valid)

  -- The new SSL is dropped.
  unfoldable pub init_server : Bytes → Bytes → Call (SslSocket × U) (Unit {0})
  unfolding init_server_context load_certificates
  init_server cert_file_name key_file_name = do
    init_server_context
    this ← get_this
    s ← on_system (call (λ u. ssl.ssl_new u this.ssl_context))
    throw_if (s == 0) (bytes "SSLSocket::Init( bool ): Error al crear SSL") tt
    on_system (load_certificates this cert_file_name key_file_name)

  abbrev build : ℕ → Bool → Call (SslSocket × U) (Unit {0})
  build t ipv6 (this, u) =
      let (r, (socket', u')) = build_socket net t ipv6 (this.socket, u) in
      (r, (record this { socket = socket' }, u'))

  abbrev pub ssl_constructed : Ended (Unit {0}) × (SslSocket × U) → Ended SslSocket × U
  ssl_constructed (returned _, (this, u)) = (returned this, u)
  ssl_constructed (thrown what, (this, u)) =
      let (_, u') = delete_vsocket net this.socket u in (thrown what, u')
  ssl_constructed (aborted, (this, u)) = (aborted, u)

  unfoldable pub new_ssl_socket : SslSocket → ℕ → Bool → Bool → Call U SslSocket
  unfolding build_socket delete_vsocket init
  new_ssl_socket memory t ipv6 client_context u =
      let body : Call (SslSocket × U) (Unit {0}) = do
        build t ipv6
        set_context 0
        set_struct 0
        if client_context then init else pure tt
      in ssl_constructed (body (memory, u))

  -- SSLContext and SSLStruct keep what the memory held.
  unfoldable pub new_ssl_socket_id : SslSocket → ℤ → SslSocket
  unfolding build_socket_wth_id
  new_ssl_socket_id memory id = record memory { socket = build_socket_wth_id net memory.socket id }

  -- ~SSLSocket, and then the destructor of the base.
  unfoldable pub delete_ssl_socket : SslSocket → Call U (Unit {0})
  unfolding close_socket delete_vsocket
  delete_ssl_socket this = do
    call (λ u. (tt, if this.ssl_context == 0 then u else ssl.ctx_free u this.ssl_context))
    call (λ u. (tt, if this.ssl_struct == 0 then u else ssl.ssl_free u this.ssl_struct))
    close_socket net this.socket
    delete_vsocket net this.socket

  -- What both MakeConnections do once EstablishConnection has returned.
  unfoldable pub ssl_handshake : SslSocket → Call U ℤ
  ssl_handshake this = do
    st ← call (λ u. ssl.set_fd u this.ssl_struct this.socket.id_socket)
    throw_if (is_minus_one st) (bytes "SSLSocket::MakeConnection( Error ), SSL_set_fd") tt
    st' ← call (λ u. ssl.ssl_connect u this.ssl_struct)
    throw_if (is_minus_one st') (bytes "SSLSocket::MakeConnection( Error ), SSL_connect") st'

  unfoldable pub ssl_make_connection : SslSocket → Bytes → ℕ → Call U ℤ
  unfolding ssl_handshake
  ssl_make_connection this host_name port =
      establish_connection net this.socket host_name port >> ssl_handshake this

  unfoldable pub ssl_make_connection_service : SslSocket → Bytes → Bytes → Call U ℤ
  unfolding ssl_handshake
  ssl_make_connection_service this host service =
      establish_connection_service net this.socket host service >> ssl_handshake this

  unfoldable pub ssl_read : SslSocket → ℕ → Call U (ℕ × Bytes)
  ssl_read this size = do
    result ← call (λ u. ssl.ssl_read u this.ssl_struct size)
    throw_if (is_minus_one result.0) (bytes "SSLSocket::Read( SSL Error )")
        (to_size result.0, result.1)

  unfoldable pub ssl_write : SslSocket → Bytes → Call U ℕ
  ssl_write this buffer = do
    st ← call (λ u. ssl.ssl_write u this.ssl_struct buffer)
    throw_if (is_minus_one st) (bytes "SSLSocket::Write( SSL Error )") (to_size st)

  unfoldable pub ssl_write_text : SslSocket → Bytes → Call U ℕ
  unfolding ssl_write
  ssl_write_text this string = ssl_write this (c_str string)

  abbrev is_one : ℤ → Bool
  is_one (pos n) = n == 1
  is_one n = false

  unfoldable pub copy : SslSocket → Call (SslSocket × U) (Unit {0})
  copy original = do
    s ← on_system (call (λ u. ssl.ssl_new u original.ssl_context))
    throw_if (s == 0) (bytes "SSLSocket::Copy: Error al crear SSL") tt
    set_struct s
    this ← get_this
    st ← on_system (call (λ u. ssl.set_fd u this.ssl_struct this.socket.id_socket))
    throw_if (not (is_one st)) (bytes "SSLSocket::Copy: Error al asociar socket con SSL") tt

  unfoldable pub ssl_accept : SslSocket → Call U (Unit {0})
  ssl_accept this = do
    st ← call (λ u. ssl.ssl_accept u this.ssl_struct)
    throw_if (is_minus_one st) (bytes "SSLSocket::Write( SSL Error )") tt

  unfoldable pub ssl_accept_connection : SslSocket → SslSocket → Call U SslSocket
  unfolding wait_for_connection new_ssl_socket_id
  ssl_accept_connection this memory = do
    id ← wait_for_connection net this.socket
    pure (new_ssl_socket_id memory id)

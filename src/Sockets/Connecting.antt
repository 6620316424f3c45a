-- ===== src/Sockets/Connecting.antt =====
-- EstablishConnection with a service, and MakeConnection of SSLSocket over it: which calls of
-- connect are made, and what follows from what they return.
use distributed_ascii_server.Prelude.{
  zero, suc, ◌≡◌, ◌≢◌, refl, ◌⊎◌, Bool, true, false, Option, none, some, List, [], ◌∷◌, Bool-cases,
  if◌then◌else◌, inl, inr,
}
use distributed_ascii_server.Prelude.Int.{ℤ, pos, negsuc, minus_one, is_zero}
use distributed_ascii_server.Text.{Bytes}
use distributed_ascii_server.Sockets.Net.{SocketAddress, Net, returned}
use distributed_ascii_server.Sockets.VSocket.{
  VSocket, connect_loop, connect_any, establish_connection_service,
}
use distributed_ascii_server.Sockets.Ssl.{
  OpenSsl, SslSocket, ssl_handshake, ssl_make_connection_service,
}

abbrev pub is_some : {A : Type 0} → Option A → Bool
is_some none = false
is_some (some a) = true

abbrev pub listed : Option (List SocketAddress) → List SocketAddress
listed none = []
listed (some addresses) = addresses

-- The calls of connect on one descriptor for addresses in their order, from `u` to `u'`: every call
-- returns something else than 0, or the last does return 0, for the address `o`.
abbrev pub Tried :
    {U : Type 0} → Net U → ℤ → List SocketAddress → U → Option SocketAddress → U → Type 0
Tried net id [] u o u' = (o ≡ none) × (u' ≡ u)
Tried net id (a ∷ rs) u o u' =
    (((net.connect u id a).0 ≡ pos 0) × (o ≡ some a) × (u' ≡ (net.connect u id a).1))
    ⊎ (((net.connect u id a).0 ≢ pos 0) × Tried net id rs (net.connect u id a).1 o u')

is_zero_sound : (n : ℤ) → is_zero n ≡ true → n ≡ pos 0
is_zero_sound (pos zero) h = refl
is_zero_sound (pos (suc n)) h = cc
is_zero_sound (negsuc n) h = cc

is_zero_ne : (n : ℤ) → n ≢ pos 0 → is_zero n ≡ false
is_zero_ne (pos zero) h = absurd (h refl)
is_zero_ne (pos (suc n)) h = refl
is_zero_ne (negsuc n) h = refl

module _ {U : Type 0} (net : Net U) (this : VSocket) where
  connect_loop-Tried :
      (rs : List SocketAddress) (u : U)
      → (o : Option SocketAddress) × (u' : U) × Tried net this.id_socket rs u o u'
        × (connect_loop net this rs u ≡ (is_some o, u'))
  unfolding connect_loop
  connect_loop-Tried [] u = (none, u, (refl, refl), refl)
  connect_loop-Tried (a ∷ rs) u = elim (Bool-cases (is_zero (net.connect u this.id_socket a).0)) [
    | inl e ↦
        let ok' = is_zero_sound (net.connect u this.id_socket a).0 e in
        (some a, (net.connect u this.id_socket a).1, inl (ok', refl, refl), rw e refl)
    | inr e ↦
        let (o, u', tried, ran) = connect_loop-Tried rs (net.connect u this.id_socket a).1 in
        (o, u', inr ((λ z. cc (rw z at e), tried)), rw e ran)
  ]

  Tried-connect_loop :
      (rs : List SocketAddress) (u : U) (o : Option SocketAddress) (u' : U)
      → Tried net this.id_socket rs u o u'
      → connect_loop net this rs u ≡ (is_some o, u')
  unfolding connect_loop
  Tried-connect_loop [] u o u' (all', same) = rw (all', same) refl
  Tried-connect_loop (a ∷ rs) u o u' (inl (ok', here, same)) = rw (ok', here, same) refl
  Tried-connect_loop (a ∷ rs) u o u' (inr (failed, tried)) =
      rw (is_zero_ne (net.connect u this.id_socket a).0 failed)
        (Tried-connect_loop rs (net.connect u this.id_socket a).1 o u' tried)

  -- EstablishConnection calls connect for the addresses of getaddrinfo, in their order and all on the
  -- socket's one descriptor, up to the first call that returns 0, and makes no other call. It returns
  -- 0 where there was such a call, and -1 where there was none or getaddrinfo failed.
  pub establish_connection_service_lem :
      (host service : Bytes) (u u' : U) (answer : Option (List SocketAddress))
      → net.getaddrinfo u this.family host service ≡ (answer, u')
      → (o : Option SocketAddress) × (w : U) × Tried net this.id_socket (listed answer) u' o w
        × (establish_connection_service net this host service u
            ≡ (returned (if is_some o then pos 0 else minus_one), w))
  unfolding establish_connection_service connect_any
  establish_connection_service_lem host service u u' none asked =
      (none, u', (refl, refl), rw asked refl)
  establish_connection_service_lem host service u u' (some rs) asked =
      let (o, w, tried, ran) = connect_loop-Tried rs u' in (o, w, tried, rw (asked, ran) refl)

  unreached :
      (host service : Bytes) (u u' w : U) (answer : Option (List SocketAddress))
      → net.getaddrinfo u this.family host service ≡ (answer, u')
      → Tried net this.id_socket (listed answer) u' none w
      → establish_connection_service net this host service u ≡ (returned minus_one, w)
  unfolding establish_connection_service connect_any
  unreached host service u u' w none asked (all', same) = rw (asked, same) refl
  unreached host service u u' w (some rs) asked tried =
      rw (asked, Tried-connect_loop rs u' none w tried) refl

-- MakeConnection of SSLSocket to a host for none of whose addresses connect returns 0 does not fail
-- there: it goes on with SSL_set_fd and SSL_connect after the last of these calls, and ends as they do.
pub ssl_make_connection_unreachable :
    {U : Type 0} (net : Net U) (ssl : OpenSsl U) (this : SslSocket) (host service : Bytes)
    (u u' w : U) (answer : Option (List SocketAddress))
    → net.getaddrinfo u this.socket.family host service ≡ (answer, u')
    → Tried net this.socket.id_socket (listed answer) u' none w
    → ssl_make_connection_service net ssl this host service u ≡ ssl_handshake net ssl this w
unfolding ssl_make_connection_service
ssl_make_connection_unreachable net ssl this host service u u' w answer asked tried =
    rw (unreached net this.socket host service u u' w answer asked tried) refl

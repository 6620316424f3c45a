-- ===== src/Sockets/Descriptors.antt =====
-- The table of descriptors over the life of a plain socket: what the constructor opens, the
-- destructor closes.
use distributed_ascii_server.Prelude.{
  ℕ, ◌≡◌, ◌≢◌, refl, sym, ap, ◌∙◌, Bool, true, false, ◌⊎◌, inl, inr, Bool-cases, if◌then◌else◌,
  ne→==,
}
use distributed_ascii_server.Prelude.Int.{ℤ, minus_one, is_minus_one, eq_int, eq_int_sound}
use distributed_ascii_server.Text.{bytes}
use distributed_ascii_server.Sockets.Net.{
  Net, Ended, returned, thrown, aborted, sock_stream, sock_dgram, af_inet, af_inet6,
}
use distributed_ascii_server.Sockets.VSocket.{
  VSocket, open_socket, build_socket, delete_vsocket, close_socket,
}
use distributed_ascii_server.Sockets.Stream.{constructed, new_socket, delete_socket}

-- What socket and close document: a new descriptor is one that is not open, -1 is never open, and a
-- close shuts one descriptor.
pub record Descriptors {U : Type 0} (net : Net U) : Type 0 where
  pub opened : U → ℤ → Bool
  pub minus_one_closed : (u : U) → opened u minus_one ≡ false
  pub socket_fresh : (u : U) (family type : ℕ) → opened u (net.socket u family type).0 ≡ false
  pub socket_opens :
      (u : U) (family type : ℕ) (d : ℤ)
      → opened (net.socket u family type).1 d ≡ (
          if is_minus_one (net.socket u family type).0
          then opened u d
          else (if eq_int d (net.socket u family type).0 then true else opened u d))
  pub close_closes :
      (u : U) (id d : ℤ) → opened (net.close u id) d ≡ (if eq_int d id then false else opened u d)

-- The object's whole life: the constructor and, where it returns, the destructor.
abbrev pub life : {U : Type 0} → Net U → Ended VSocket × U → U
life net (returned this, u) = (delete_socket net this u).1
life net (thrown what, u) = u
life net (aborted, u) = u

if_same : {A : Type 0} (b : Bool) (a : A) → (if b then a else a) ≡ a
if_same true a = refl
if_same false a = refl

module _ {U : Type 0} (net : Net U) (laws : Descriptors net) where
  open laws use {opened, minus_one_closed, socket_fresh, socket_opens, close_closes}

  -- Closing a descriptor that is shut changes nothing.
  close-shut : (u : U) (id d : ℤ) → opened u id ≡ false → opened (net.close u id) d ≡ opened u d
  close-shut u id d shut = elim (Bool-cases (eq_int d id)) [
    | inl e ↦ close_closes u id d ∙ rw e (sym (ap (opened u) (eq_int_sound d id e) ∙ shut))
    | inr e ↦ close_closes u id d ∙ rw e refl
  ]

  -- Opening a descriptor and closing it again.
  close-socket :
      (u : U) (family type : ℕ) (d : ℤ)
      → let (id, u') = net.socket u family type in opened (net.close u' id) d ≡ opened u d
  close-socket u family type d =
      let id : ℤ = (net.socket u family type).0 in
      let u' : U = (net.socket u family type).1 in
      elim (Bool-cases (eq_int d id)) [
        | inl e ↦
            close_closes u' id d
            ∙ rw e (sym (ap (opened u) (eq_int_sound d id e) ∙ socket_fresh u family type))
        | inr e ↦
            close_closes u' id d
            ∙ rw e (socket_opens u family type d ∙ rw e (if_same (is_minus_one id) (opened u d)))
      ]

  life-open_socket :
      (memory : VSocket) (type : ℕ) (ipv6 : Bool) (u : U) (d : ℤ)
      → opened (life net (constructed net (open_socket net type ipv6 (memory, u)))) d ≡ opened u d
  unfolding open_socket delete_socket delete_vsocket close_socket
  life-open_socket memory type ipv6 u d =
      let family : ℕ = if ipv6 then af_inet6 else af_inet in
      elim (Bool-cases (is_minus_one (net.socket u family type).0)) [
        | inl e ↦ rw e (close-socket u family type d)
        | inr e ↦ rw e (close-socket u family type d)
      ]

  -- A stream or datagram socket leaves the table of descriptors as it found it, once it has been
  -- constructed and destroyed; also where the constructor throws.
  pub delete_socket-new_socket :
      (memory : VSocket) (t : ℕ) (ipv6 : Bool) (u : U) (d : ℤ)
      → (t ≡ b's') ⊎ (t ≡ b'd')
      → opened (life net (new_socket net memory t ipv6 u)) d ≡ opened u d
  unfolding new_socket build_socket
  delete_socket-new_socket memory t ipv6 u d (inl stream) =
      rw stream (life-open_socket memory sock_stream ipv6 u d)
  delete_socket-new_socket memory t ipv6 u d (inr datagram) =
      rw datagram (life-open_socket memory sock_dgram ipv6 u d)

  -- For any other type the constructor throws, and its destructor shuts the descriptor that the
  -- object's memory happened to hold, whoever it belongs to; the others stay.
  pub new_socket_invalid :
      (memory : VSocket) (t : ℕ) (ipv6 : Bool) (u : U)
      → t ≢ b's'
      → t ≢ b'd'
      → let after = new_socket net memory t ipv6 u in
        (after.0 ≡ thrown (bytes "VSocket::BuildSocket, invalid socket type"))
        × ((d : ℤ) → opened after.1 d ≡ (if eq_int d memory.id_socket then false else opened u d))
  unfolding new_socket build_socket delete_vsocket close_socket
  new_socket_invalid memory t ipv6 u stream datagram =
      rw (ne→== t b's' stream, ne→== t b'd' datagram) (refl, λ d. close_closes u memory.id_socket d)

-- ===== src/Sockets/Net.antt =====
-- The calls of the operating system that the socket classes make, as functions on a state of their
-- own, and how a member function of those classes ends.
use distributed_ascii_server.Prelude.{ℕ, Bool, ◌%◌, ◌^◌, Option, List, if◌then◌else◌}
use distributed_ascii_server.Prelude.Int.{ℤ}
use distributed_ascii_server.Text.{Bytes}

-- Of <sys/socket.h> on Linux.
abbrev pub af_inet : ℕ
af_inet = 2

abbrev pub af_inet6 : ℕ
af_inet6 = 10

abbrev pub sock_stream : ℕ
sock_stream = 1

abbrev pub sock_dgram : ℕ
sock_dgram = 2

-- A struct sockaddr_in or sockaddr_in6: family, port, and the bytes of the address.
pub record SocketAddress : Type 0 where
  pub family : ℕ
  pub port : ℕ
  pub address : Bytes

-- The port that htons writes: an uint16_t.
abbrev pub htons : ℕ → ℕ
htons port = port % 2 ^ 16

-- inet_pton: 1 with the address, 0 for a text that is none, -1 for a family that it does not know.
pub data Converted : Type 0 where
  converted : Bytes → Converted
  not_an_address : Converted
  unknown_family : Converted

-- Each call takes and returns the state of the system. getaddrinfo has none where it fails, and
-- else the list of addresses; read and recvfrom return their result and what they put in the
-- buffer.
pub record Net (U : Type 0) : Type 0 where
  pub socket : U → ℕ → ℕ → ℤ × U
  pub close : U → ℤ → U
  pub inet_pton : ℕ → Bytes → Converted
  pub connect : U → ℤ → SocketAddress → ℤ × U
  pub getaddrinfo : U → ℕ → Bytes → Bytes → Option (List SocketAddress) × U
  pub set_reuse_addr : U → ℤ → ℤ × U
  pub bind : U → ℤ → SocketAddress → ℤ × U
  pub listen : U → ℤ → ℕ → ℤ × U
  pub accept : U → ℤ → ℤ × U
  pub shutdown : U → ℤ → ℕ → ℤ × U
  pub read : U → ℤ → ℕ → (ℤ × Bytes) × U
  pub write : U → ℤ → Bytes → ℤ × U
  pub sendto : U → ℤ → Bytes → SocketAddress → ℕ → ℤ × U
  pub recvfrom : U → ℤ → ℕ → (ℤ × Bytes) × U

-- A member function returns, throws std::runtime_error with a text, or calls abort.
pub data Ended {ℓ} (A : Type ℓ) : Type ℓ where
  returned : A → Ended A
  thrown : Bytes → Ended A
  aborted : Ended A

-- What the calls did to the system stays done after a throw.
abbrev pub Call : Type 0 → Type 0 → Type 0
Call U A = U → Ended A × U

module _ {U A : Type 0} where
  abbrev pub pure : A → Call U A
  pure a u = (returned a, u)

  abbrev pub throw : Bytes → Call U A
  throw what u = (thrown what, u)

  abbrev pub throw_if : Bool → Bytes → A → Call U A
  throw_if test what a u = (if test then thrown what else returned a, u)

  -- A call of the operating system, as one that returns.
  abbrev pub call : (U → A × U) → Call U A
  call f u = let (a, u') = f u in (returned a, u')

abbrev pub after : {U A B : Type 0} → Ended A → U → (A → Call U B) → Ended B × U
after (returned a) u k = k a u
after (thrown what) u k = (thrown what, u)
after aborted u k = (aborted, u)

infixl 5 ◌>>=◌ ◌>>◌
abbrev pub ◌>>=◌ : {U A B : Type 0} → Call U A → (A → Call U B) → Call U B
◌>>=◌ m k u = let (r, u') = m u in after r u' k

abbrev pub ◌>>◌ : {U A B : Type 0} → Call U A → Call U B → Call U B
m >> k = m >>= λ _. k

-- ===== src/Server/Main.antt =====
-- main of main.cpp and the constructors of Server: the arguments, and what the child of the mode of
-- processes does with a client.
use distributed_ascii_server.Prelude.{
  ℕ, ◌-◌, Bool, true, false, Option, none, some, List, [], ◌∷◌, ◌++◌, ltb, ◌==◌, length, replicate,
  if◌then◌else◌,
}
use distributed_ascii_server.Text.{Bytes, bytes}
use distributed_ascii_server.Simulation.Adapter.{stoi}
use distributed_ascii_server.Server.Task.{bufsize}
use distributed_ascii_server.Server.Run.{default_port}
use distributed_ascii_server.Sockets.Net.{Net, Ended, returned, thrown, aborted}
use distributed_ascii_server.Sockets.VSocket.{VSocket, close_socket}
use distributed_ascii_server.Sockets.Stream.{read, write}

pub record Server : Type 0 where
  pub ip : Bytes
  pub port : ℕ
  pub usar_hilos : Bool

-- IP
abbrev pub default_ip : Bytes
default_ip = bytes "172.0.0.1"

abbrev pub new_server : Server
new_server = record { ip = default_ip; port = default_port; usar_hilos = false }

abbrev pub new_server_mode : Bool → Server
new_server_mode usar_hilos = record {
  ip = default_ip;
  port = default_port;
  usar_hilos = usar_hilos;
}

abbrev pub new_server_at : Bytes → ℕ → Bool → Server
new_server_at ip port usar_hilos = record { ip = ip; port = port; usar_hilos = usar_hilos }

-- main returns 1, or goes on to run.
pub data Configured : Type 0 where
  exits : Configured
  runs : Server → Configured

-- The last argument, 0 or 1; stoi throws where it finds no number.
abbrev pub with_mode : Option ℕ → (Bool → Server) → Configured
with_mode none server = exits
with_mode (some modo) server =
    if modo == 0 then runs (server false) else if modo == 1 then runs (server true) else exits

-- An int below 0 stands above 2 ^ 31 here.
abbrev pub with_port : Option ℕ → (ℕ → Configured) → Configured
with_port none rest = exits
with_port (some puerto) rest = if ltb 65535 puerto then exits else rest puerto

-- argv, with the name of the program first.
unfoldable pub configure : List Bytes → Configured
configure (program ∷ []) = runs new_server
configure (program ∷ modo ∷ []) = with_mode (stoi modo) new_server_mode
configure (program ∷ ip ∷ puerto ∷ modo ∷ []) =
    with_port (stoi puerto) (λ port. with_mode (stoi modo) (new_server_at ip port))
configure argv = exits

abbrev pub grown : ℕ → Option Bytes → Option Bytes
grown c none = none
grown c (some s) = some (c ∷ s)

-- The text in a buffer: none where there is no NUL.
unfoldable pub text_in : Bytes → Option Bytes
text_in [] = none
text_in (c ∷ s) = if c == 0 then some [] else grown c (text_in s)

-- The buffer after memset and a Read of these bytes.
abbrev pub filled : Bytes → Bytes
filled part = part ++ replicate (bufsize - length part) 0

module _ {U : Type 0} (net : Net U) where
  abbrev pub echo : VSocket → Option Bytes → U → Option U
  echo client none u = none
  echo client (some text) u = some (write net client text u).1

  abbrev pub echo_read : VSocket → Ended (ℕ × Bytes) × U → Option U
  echo_read client (returned (n, part), u) = echo client (text_in (filled part)) u
  echo_read client (thrown what, u) = none
  echo_read client (aborted, u) = none

  -- The child, up to its exit: none where Write reads beyond the buffer.
  unfoldable pub process_child : VSocket → VSocket → U → Option U
  unfolding close_socket read write text_in
  process_child server client u =
      let (_, u') = close_socket net server u in echo_read client (read net client bufsize u')

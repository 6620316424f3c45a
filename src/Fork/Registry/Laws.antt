-- ===== src/Fork/Registry/Laws.antt =====
-- What the messages of a server do to the registry.
use distributed_ascii_server.Prelude.{
  ℕ, zero, suc, ◌≡◌, ◌≢◌, refl, true, false, none, some, List, [], ◌∷◌, ◌++◌,
}
use distributed_ascii_server.Text.{Bytes, bytes, contains}
use distributed_ascii_server.Fork.Registry.{
  ForkServer, Network, request_from_server, objects_of, register_server, process_protocol_message,
  udp_discovery_loop, try_server, monitor_server,
}
use distributed_ascii_server.Text.Maps.{
  lookup, insert, erase, lookup-insert, lookup-erase, lookup-erase_ne,
}

-- An OFF of a server removes its entry, but its objects stay in the table when the address that it
-- announced is not the one that its messages come from.
pub process_off :
    (network : Network) (s : ForkServer) (message sender_ip ip : Bytes)
    → contains (bytes "BEGIN/ON/SERVIDOR/") message ≡ false
    → contains (bytes "BEGIN/OFF/SERVIDOR/") message ≡ true
    → ip ≢ sender_ip
    → (s' : ForkServer) × (process_protocol_message network s message sender_ip ≡ (true, s'))
      × (lookup sender_ip s'.known_servers ≡ none)
      × (lookup ip s'.server_objects ≡ lookup ip s.server_objects)
unfolding process_protocol_message
process_off network s message sender_ip ip not_on off differ = (
  record {
    known_servers = erase sender_ip s.known_servers;
    server_objects = erase sender_ip s.server_objects;
  },
  rw (not_on, off) refl,
  lookup-erase sender_ip s.known_servers,
  lookup-erase_ne sender_ip ip s.server_objects differ,
)

-- What the table holds after an announcement with an address and a port: the server is known by its
-- sender's address, and, if it answers with its objects, these are kept by the announced address.
pub register_server_lem :
    (network : Network) (s : ForkServer) (sender_ip ip response : Bytes) (port : ℕ)
    (objects : List Bytes)
    → request_from_server network ip port (bytes "BEGIN/OBJECTS/END") ≡ some response
    → contains (bytes "BEGIN/OK/") response ≡ true
    → objects_of response ≡ some objects
    → (s' : ForkServer) × (register_server network s sender_ip ip port ≡ (true, s'))
      × (lookup sender_ip s'.known_servers ≡ some (ip, port))
      × (lookup ip s'.server_objects ≡ some objects)
unfolding register_server
register_server_lem network s sender_ip ip response port objects answered okay read = (
  record {
    known_servers = insert sender_ip (ip, port) s.known_servers;
    server_objects = insert ip objects s.server_objects;
  },
  rw (register_server, answered, okay, read) refl,
  lookup-insert sender_ip (ip, port) s.known_servers,
  lookup-insert ip objects s.server_objects,
)

try_silent :
    (retries : ℕ) (networks : ℕ → Network) (ip : Bytes) (port : ℕ)
    → ((i : ℕ) → request_from_server (networks i) ip port (bytes "BEGIN/OBJECTS/END") ≡ none)
    → try_server retries networks ip port false ≡ (false, none)
unfolding try_server
try_silent zero networks ip port silent = refl
try_silent (suc retries) networks ip port silent =
    rw (try_server, silent 0)
      (try_silent retries (λ i. networks (suc i)) ip port (λ i. silent (suc i)))

-- A server that does not answer in any of the three tries loses its objects, but stays known when
-- its messages come from another address than the one that it announced.
pub monitor_server_lem :
    (networks : ℕ → Network) (s : ForkServer) (ip sender_ip : Bytes) (port : ℕ)
    → ((i : ℕ) → request_from_server (networks i) ip port (bytes "BEGIN/OBJECTS/END") ≡ none)
    → sender_ip ≢ ip
    → (lookup ip (monitor_server networks s ip port).server_objects ≡ none)
      × (lookup sender_ip (monitor_server networks s ip port).known_servers
          ≡ lookup sender_ip s.known_servers)
unfolding monitor_server
monitor_server_lem networks s ip sender_ip port silent differ =
    rw (monitor_server, try_silent 3 networks ip port silent)
      (lookup-erase ip s.server_objects, lookup-erase_ne ip sender_ip s.known_servers differ)

-- One message whose handling throws ends the discovery: whatever arrives after it is ignored.
pub udp_discovery_loop_stops :
    (s : ForkServer) (before after : List (Network × (Bytes × Bytes))) (network : Network)
    (message sender_ip : Bytes)
    → ((now : ForkServer) → (process_protocol_message network now message sender_ip).0 ≡ false)
    → udp_discovery_loop s (before ++ (network, (message, sender_ip)) ∷ after)
      ≡ udp_discovery_loop s (before ++ (network, (message, sender_ip)) ∷ [])
unfolding udp_discovery_loop
udp_discovery_loop_stops s [] after network message sender_ip throws = rw (throws s) refl
udp_discovery_loop_stops s ((n, (m, a)) ∷ before) after network message sender_ip throws =
    rw
      (udp_discovery_loop_stops (process_protocol_message n s m a).1 before after network message
        sender_ip throws)
      refl

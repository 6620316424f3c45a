-- ===== src/Fork/Registry.antt =====
-- The servers that forkServer knows: processProtocolMessage, udpDiscoveryHandler, monitorServers
-- and requestFromServer. An exception that leaves a function is `none`, or the flag false where the
-- state that was changed before it counts.
pub mod Laws
use distributed_ascii_server.Prelude.{
  ℕ, zero, suc, ◌+◌, ◌-◌, ◌%◌, Bool, true, false, not, ◌&&◌, ◌||◌, Option, none, some, List, [],
  ◌∷◌, ◌++◌, ltb, ◌==◌, length, if◌then◌else◌,
}
use distributed_ascii_server.Text.{
  Bytes, bytes, Run, done, out_of_range, fault, no_fuel, npos, sub_size, slash, eq_bytes, find,
  find_from, contains, substr,
}
use distributed_ascii_server.Server.Http.{place}
use distributed_ascii_server.Simulation.Adapter.{stoi}
use distributed_ascii_server.Text.Maps.{Map, lookup, insert, erase}

-- What the Reads of one exchange with a server deliver, and none if no connection is made.
abbrev pub Network : Type 0
Network = Bytes → ℕ → Bytes → Option (List Bytes)

pub record ForkServer : Type 0 where
  pub known_servers : Map (Bytes × ℕ)
  pub server_objects : Map (List Bytes)

-- while (true): append what each Read delivers, until an empty one or the end mark.
unfoldable pub read_response : List Bytes → Bytes → Bytes
read_response [] response = response
read_response ([] ∷ reads) response = response
read_response ((c ∷ buffer) ∷ reads) response =
    let so_far = response ++ (c ∷ buffer) in
    let rest = read_response reads so_far in if contains (bytes "/END") so_far then so_far else rest

unfoldable pub request_from_server : Network → Bytes → ℕ → Bytes → Option Bytes
request_from_server network server_ip port request = elim (network server_ip port request) [
  | none ↦ none
  | some reads ↦
      let response = read_response reads [] in if length response == 0 then none else some response
]

-- A call that throws.
abbrev pub caught {ℓ} : {A : Type ℓ} → Run A → Option A
caught (done a) = some a
caught out_of_range = none
caught fault = none
caught no_fuel = none

-- while (std::getline(iss, object, '\n')) objects.push_back(object);
abbrev pub first_line : ℕ → List Bytes → List Bytes
first_line c [] = (c ∷ []) ∷ []
first_line c (t ∷ ts) = (c ∷ t) ∷ ts

unfoldable pub get_lines : Bytes → List Bytes
get_lines [] = []
get_lines (c ∷ s) = if c == 10 then [] ∷ get_lines s else first_line c (get_lines s)

-- The objects of an OK answer; the content is cut at the first /END, or not at all without one.
unfoldable pub objects_of : Bytes → Option (List Bytes)
objects_of response =
    let content_start = place (find (bytes "BEGIN/OK/") response) + 9 in
    let content_end = place (find (bytes "/END") response) in
    elim (caught (substr response content_start (sub_size content_end content_start))) [
      | none ↦ none
      | some content ↦ some (get_lines content)
    ]

-- The branch for BEGIN/ON/SERVIDOR/ once the address and the port are read.
unfoldable pub register_server : Network → ForkServer → Bytes → Bytes → ℕ → Bool × ForkServer
register_server network s sender_ip ip port =
    let known = record s { known_servers = insert sender_ip (ip, port) s.known_servers } in
    elim (request_from_server network ip port (bytes "BEGIN/OBJECTS/END")) [
      | none ↦ (false, known)
      | some objects_list ↦
          if contains (bytes "BEGIN/OK/") objects_list
          then elim (objects_of objects_list) [
            | none ↦ (false, known)
            | some objects ↦
                (true, record known { server_objects = insert ip objects s.server_objects })
          ]
          else (true, known)
    ]

-- std::stoi of the port's text.
unfoldable pub read_port : Bytes → ℕ → ℕ → Option ℕ
read_port message ip_end port_end =
    elim (caught (substr message (ip_end + 1) (sub_size port_end (ip_end + 1)))) [
      | none ↦ none
      | some text ↦ stoi text
    ]

unfoldable pub announce_server : Network → ForkServer → Bytes → Bytes → Bool × ForkServer
announce_server network s message sender_ip =
    let ip_start = place (find (bytes "BEGIN/ON/SERVIDOR/") message) + 18 in
    let ip_end = place (find_from slash message ip_start) in
    let port_end = place (find (bytes "/END") message) in
    if not (ip_end == npos) && not (port_end == npos)
    then elim (caught (substr message ip_start (sub_size ip_end ip_start))) [
      | none ↦ (false, s)
      | some ip ↦ elim (read_port message ip_end port_end) [
        | none ↦ (false, s)
        | some port ↦ register_server network s sender_ip ip port
      ]
    ]
    else (true, s)

unfoldable pub process_protocol_message : Network → ForkServer → Bytes → Bytes → Bool × ForkServer
process_protocol_message network s message sender_ip =
    if contains (bytes "BEGIN/ON/SERVIDOR/") message
    then announce_server network s message sender_ip
    else if contains (bytes "BEGIN/OFF/SERVIDOR/") message
    then (
      true,
      record {
        known_servers = erase sender_ip s.known_servers;
        server_objects = erase sender_ip s.server_objects;
      },
    )
    else (true, s)

-- The loop of udpDiscoveryHandler over the messages that arrive, each with its sender and with what
-- the network does while it is handled. The catch stands outside the loop.
unfoldable pub udp_discovery_loop : ForkServer → List (Network × (Bytes × Bytes)) → ForkServer
udp_discovery_loop s [] = s
udp_discovery_loop s ((network, (message, sender_ip)) ∷ more) =
    let handled = process_protocol_message network s message sender_ip in
    let rest = udp_discovery_loop handled.1 more in if handled.0 then rest else handled.1

-- for (int i = 0; i < MAX_RETRIES; ++i): whether the server is active, and the objects of its first
-- OK answer that is read without an exception.
unfoldable pub try_server : ℕ → (ℕ → Network) → Bytes → ℕ → Bool → Bool × Option (List Bytes)
try_server zero networks ip port active = (active, none)
try_server (suc retries) networks ip port active =
    let retry : Bool → Bool × Option (List Bytes) =
      try_server retries (λ i. networks (suc i)) ip port in
    elim (request_from_server (networks 0) ip port (bytes "BEGIN/OBJECTS/END")) [
      | none ↦ retry active
      | some response ↦
          if contains (bytes "BEGIN/OK/") response
          then elim (objects_of response) [
            | none ↦ retry true
            | some objects ↦ (true, some objects)
          ]
          else retry active
    ]

-- MAX_RETRIES
abbrev pub max_retries : ℕ
max_retries = 3

-- if (!active): forget the server.
abbrev pub erase_server : ForkServer → Bytes → ForkServer
erase_server s ip = record {
  known_servers = erase ip s.known_servers;
  server_objects = erase ip s.server_objects;
}

abbrev pub update_server : ForkServer → Bytes → Bool × Option (List Bytes) → ForkServer
update_server s ip (active, some objects) = record s {
  server_objects = insert ip objects s.server_objects;
}
update_server s ip (true, none) = s
update_server s ip (false, none) = erase_server s ip

unfoldable pub monitor_server : (ℕ → Network) → ForkServer → Bytes → ℕ → ForkServer
monitor_server networks s ip port =
    update_server s ip (try_server max_retries networks ip port false)

-- One round of monitorServers, over the copy of the known servers.
unfoldable pub monitor_loop : (ℕ → Network) → ForkServer → Map (Bytes × ℕ) → ForkServer
monitor_loop networks s [] = s
monitor_loop networks s ((key, (ip, port)) ∷ servers_copy) =
    monitor_loop networks (monitor_server networks s ip port) servers_copy

unfoldable pub monitor_servers : (ℕ → Network) → ForkServer → ForkServer
monitor_servers networks s = monitor_loop networks s s.known_servers

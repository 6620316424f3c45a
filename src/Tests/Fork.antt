-- ===== src/Tests/Fork.antt =====
-- The router with one server, whose messages come from another address than it announces.
use distributed_ascii_server.Prelude.{
  ℕ, ◌≡◌, inl, refl, arith, true, false, none, some, List, [], ◌∷◌, ◌++◌,
}
use distributed_ascii_server.Text.{Bytes, bytes, contains, find_from, substr, starts_with, eq_bytes}
use distributed_ascii_server.Text.Maps.{lookup}
use distributed_ascii_server.Simulation.Adapter.{stoi}
use distributed_ascii_server.Fork.Registry.{
  read_response, ForkServer, Network, request_from_server, announce_server, read_port,
  process_protocol_message,
}
use distributed_ascii_server.Fork.Requests.{has_object, objects_at, http_ok, handle_client}
use distributed_ascii_server.Fork.Requests.Laws.{IsKnown}
use distributed_ascii_server.Fork.Requests.Routing.{handle_client_get}
use distributed_ascii_server.Server.Replies.{ok_answer}
use distributed_ascii_server.Server.Answers.{message}
use distributed_ascii_server.Server.EndToEnd.{get_line}

abbrev sender : Bytes
sender = bytes "10.0.0.7"

abbrev announced : Bytes
announced = bytes "127.0.0.1"

abbrev objects : List Bytes
objects = bytes "Goku" ∷ bytes "Foca" ∷ []

abbrev registered : ForkServer
registered = record {
  known_servers = (sender, (announced, 8080)) ∷ [];
  server_objects = (announced, objects) ∷ [];
}

abbrev response : Bytes
response = bytes "BEGIN/OK/Goku" ++ 10 ∷ bytes "Foca/END"

abbrev online : Network
online ip port request = some (response ∷ [])

abbrev offline : Network
offline ip port request = none

abbrev empty : ForkServer
empty = record { known_servers = []; server_objects = [] }

abbrev off : Bytes
off = bytes "BEGIN/OFF/SERVIDOR/127.0.0.1/8080/END"

not_on : contains (bytes "BEGIN/ON/SERVIDOR/") off ≡ false
unfolding contains
not_on = refl

is_off : contains (bytes "BEGIN/OFF/SERVIDOR/") off ≡ true
unfolding contains
is_off = refl

silent : request_from_server offline announced 8080 (bytes "BEGIN/OBJECTS/END") ≡ none
unfolding request_from_server
silent = refl

-- No port stands in this announcement.
abbrev malformed : Bytes
malformed = bytes "BEGIN/ON/SERVIDOR/127.0.0.1/x/END"

throws : (now : ForkServer) → (process_protocol_message offline now malformed sender).0 ≡ false
unfolding process_protocol_message announce_server read_port contains find_from substr stoi
throws now = refl

-- The drawing arrives in two pieces.
abbrev serving : Network
serving ip port request = some (bytes "BEGIN/OK/<o>" ∷ bytes "<o>/END" ∷ [])

abbrev rest : Bytes
rest = bytes "1.1"

whole : read_response (bytes "BEGIN/OK/<o>" ∷ bytes "<o>/END" ∷ []) [] ≡ ok_answer (bytes "<o><o>")
unfolding read_response contains
whole = refl

no_end : starts_with (bytes "END") (bytes "Foca" ++ bytes "/END") ≡ false
unfolding starts_with
no_end = refl

no_index : contains (bytes "GET / ") (get_line (bytes "Foca") rest) ≡ false
unfolding contains
no_index = refl

no_bare_index : contains (bytes "GET /HTTP") (get_line (bytes "Foca") rest) ≡ false
unfolding contains
no_bare_index = refl

no_objects : contains (bytes "GET /objects") (get_line (bytes "Foca") rest) ≡ false
unfolding contains
no_objects = refl

no_list : contains (bytes "BEGIN/OBJECTS/END") (message (bytes "GET/Foca")) ≡ false
unfolding contains
no_list = refl

no_error : contains (bytes "BEGIN/ERROR/") (bytes "<o><o>/END") ≡ false
unfolding contains
no_error = refl

in_list : has_object (bytes "Foca") (objects_at announced registered.server_objects) ≡ true
unfolding has_object lookup eq_bytes
in_list = refl

handle_client_get_example :
    (i : Bytes) × (p : ℕ) × IsKnown i p registered.known_servers
    × (has_object (bytes "Foca") (objects_at i registered.server_objects) ≡ true)
    × (handle_client serving registered (get_line (bytes "Foca") rest)
        ≡ some (http_ok (bytes "<o><o>")))
handle_client_get_example =
    handle_client_get serving registered (bytes "Foca") rest (λ i p. bytes "<o><o>") announced 8080
      (omega arith) (omega arith) (omega arith) (omega arith) (omega arith) no_end no_index
      no_bare_index no_objects no_list (inl (refl, refl)) in_list
      (λ i p known has. (
        bytes "BEGIN/OK/<o>" ∷ bytes "<o>/END" ∷ [],
        refl,
        whole,
        omega arith,
        omega arith,
        no_error,
      ))

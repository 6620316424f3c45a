-- ===== src/Tests/Serving.antt =====
-- The socket classes and the server's loops at work on the small network.
use distributed_ascii_server.Prelude.{
  Option, inr, if◌then◌else◌, ℕ, ◌≡◌, refl, true, false, inl, some, List, [], ◌∷◌, ◌++◌, All, ◌==◌,
  arith, length,
}
use distributed_ascii_server.Prelude.Int.{pos, minus_one}
use distributed_ascii_server.Text.{Bytes, Run, bytes, done, c_str}
use distributed_ascii_server.FileSystem.Disk.{blank}
use distributed_ascii_server.Server.Http.{to_string}
use distributed_ascii_server.Server.Task.{task}
use distributed_ascii_server.Server.Sending.{concat}
use distributed_ascii_server.Server.Run.{
  reading, Client, finished, Process, running, terminated, connection, turn, run_task, serve,
}
use distributed_ascii_server.Server.Accepting.{IsClientServed, serve_clients}
use distributed_ascii_server.Server.Frames.{fd}
use distributed_ascii_server.Server.Ending.{run_task_refines}
use distributed_ascii_server.Server.Main.{runs, configure, process_child}
use distributed_ascii_server.Server.Arguments.{configure_arguments, process_child_echoes}
use distributed_ascii_server.Sockets.Net.{SocketAddress, returned}
use distributed_ascii_server.Sockets.VSocket.{VSocket, establish_connection_service}
use distributed_ascii_server.Sockets.Stream.{new_socket}
use distributed_ascii_server.Sockets.Ssl.{
  OpenSsl, SslSocket, ssl_handshake, ssl_make_connection_service,
}
use distributed_ascii_server.Sockets.Connecting.{
  is_some, Tried, establish_connection_service_lem, ssl_make_connection_unreachable,
}
use distributed_ascii_server.Sockets.Descriptors.{life, delete_socket-new_socket}
use distributed_ascii_server.Tests.Network.{World, small_net, streams, descriptors}
use distributed_ascii_server.Text.{find, find_from, contains, substr, starts_with, eq_bytes}
use distributed_ascii_server.Text.Split.{split, split_loop}
use distributed_ascii_server.Server.Http.{
  translate_http_to_ascii, translate_ascii_to_http, http_error, digits_from,
}
use distributed_ascii_server.Server.Protocol.{validate_request, answer, register_service}
use distributed_ascii_server.Server.Task.{read_request, handle_request, send_response, send_loop}
use distributed_ascii_server.Server.Run.{reply, serve_step, turn_at, task_turn}
use distributed_ascii_server.Sockets.VSocket.{wait_for_connection, build_socket_wth_id}
use distributed_ascii_server.Sockets.Stream.{read, write, accept_connection, new_socket_id}

abbrev here : SocketAddress
here = record { family = 2; port = 8080; address = 127 ∷ 0 ∷ 0 ∷ 1 ∷ [] }

abbrev there : SocketAddress
there = record { family = 2; port = 80; address = 10 ∷ 0 ∷ 0 ∷ 1 ∷ [] }

-- Two addresses, at the second of which a peer answers; a client that asks for nothing.
abbrev world : World
world = record {
  table = λ d. record { opened = false; sent = []; incoming = []; outgoing = [] };
  next = 3;
  request = (bytes "hello") ∷ [];
  addresses = there ∷ here ∷ [];
  answering = λ a. a.port == 8080;
}

abbrev silent : World
silent = record world { answering = λ a. false }

abbrev socket : VSocket
socket = record { id_socket = pos 3; family = 2 }

abbrev memory : VSocket
memory = record { id_socket = pos 9; family = 77 }

establish_connection_service_lem_example :
    (o : Option SocketAddress) × (w : World) × Tried small_net (pos 3) (there ∷ here ∷ []) world o w
    × (establish_connection_service small_net socket (bytes "host") (bytes "http") world
        ≡ (returned (if is_some o then pos 0 else minus_one), w))
establish_connection_service_lem_example =
    establish_connection_service_lem small_net socket (bytes "host") (bytes "http") world world
      (some (there ∷ here ∷ [])) refl

-- An OpenSSL whose calls change nothing.
abbrev no_ssl : OpenSsl World
no_ssl = record {
  tls_client_method = 1;
  tls_server_method = 1;
  library_init = λ u. u;
  ctx_new = λ u method. (1, u);
  ctx_free = λ u p. u;
  ssl_new = λ u p. (2, u);
  ssl_free = λ u p. u;
  set_fd = λ u p id. (pos 1, u);
  ssl_connect = λ u p. (minus_one, u);
  ssl_accept = λ u p. (pos 1, u);
  ssl_read = λ u p size. ((pos 0, []), u);
  ssl_write = λ u p text. (pos (length text), u);
  use_certificate_file = λ u p file. (pos 1, u);
  use_private_key_file = λ u p file. (pos 1, u);
  check_private_key = λ u p. (pos 1, u);
}

abbrev ssl_socket : SslSocket
ssl_socket = record { socket = socket; ssl_context = 1; ssl_struct = 2 }

ssl_make_connection_unreachable_example :
    ssl_make_connection_service small_net no_ssl ssl_socket (bytes "host") (bytes "http") silent
    ≡ ssl_handshake small_net no_ssl ssl_socket silent
ssl_make_connection_unreachable_example =
    ssl_make_connection_unreachable small_net no_ssl ssl_socket (bytes "host") (bytes "http") silent
      silent silent (some (there ∷ here ∷ [])) refl (inr ((λ e. cc), inr ((λ e. cc), (refl, refl))))

delete_socket-new_socket_example :
    descriptors.opened (life small_net (new_socket small_net memory b's' false world)) (pos 3)
    ≡ descriptors.opened world (pos 3)
delete_socket-new_socket_example =
    delete_socket-new_socket small_net descriptors memory b's' false world (pos 3) (inl refl)

-- Two clients come; the second one's thread reads.
abbrev serving : Process World
serving =
    serve small_net blank (record { id_socket = pos 0; family = 2 }) memory
      (connection ∷ connection ∷ turn 0 ∷ turn 0 ∷ turn 0 ∷ []) (running [] world)

abbrev clients_of : Process World → List Client
clients_of (running clients u) = clients
clients_of terminated = []

abbrev world_of : Process World → World
world_of (running clients u) = u
world_of terminated = world

serve_clients_example :
    All
      (λ c. IsClientServed small_net streams blank (world_of serving) (fd c) c.stage)
      (clients_of serving)
unfolding serve serve_step turn_at task_turn read write accept_connection wait_for_connection
    new_socket_id build_socket_wth_id task reply read_request handle_request send_response send_loop
    validate_request answer register_service split split_loop translate_http_to_ascii
    translate_ascii_to_http http_error to_string digits_from contains find find_from substr
    starts_with eq_bytes c_str
serve_clients_example =
    serve_clients small_net streams blank (record { id_socket = pos 0; family = 2 }) memory
      (connection ∷ connection ∷ turn 0 ∷ turn 0 ∷ turn 0 ∷ []) world (world_of serving)
      (clients_of serving) refl

-- A connection that has come in at descriptor 3.
abbrev connected : World
connected = record world {
  table = λ d. record {
    opened = true;
    sent = bytes "hello" ∷ [];
    incoming = bytes "hello" ∷ [];
    outgoing = [];
  };
}

abbrev chunks_of : Run (List Bytes) → List Bytes
chunks_of (done chunks) = chunks
chunks_of _ = []

abbrev sent_back : List Bytes
sent_back = chunks_of (task blank (bytes "hello" ∷ []))

run_task_refines_example :
    (fuel : ℕ) × (u' : World) × (run_task small_net blank fuel socket (reading []) connected
      ≡ finished u')
    × ((streams.observe u' (pos 3)).outgoing ≡ concat sent_back)
    × ((streams.observe u' (pos 3)).opened ≡ false)
unfolding task reply read_request handle_request send_response send_loop validate_request answer
    register_service split split_loop translate_http_to_ascii translate_ascii_to_http http_error
    to_string digits_from contains find find_from substr starts_with eq_bytes c_str
run_task_refines_example =
    run_task_refines small_net streams blank socket connected sent_back refl refl refl refl

configure_arguments_example :
    configure (bytes "Servidor" ∷ bytes "127.0.0.1" ∷ to_string 8000 ∷ to_string 1 ∷ [])
    ≡ runs (record { ip = bytes "127.0.0.1"; port = 8000; usar_hilos = true })
configure_arguments_example =
    configure_arguments (bytes "Servidor") (bytes "127.0.0.1") 8000 1 (omega arith) (omega arith)

process_child_echoes_example :
    (u' : World) × (process_child small_net
        (record { id_socket = pos 0; family = 2 })
        socket
        connected
      ≡ some u')
    × ((streams.observe u' (pos 3)).outgoing ≡ [] ++ c_str (bytes "hello"))
process_child_echoes_example =
    process_child_echoes small_net streams (record { id_socket = pos 0; family = 2 }) socket
      connected (bytes "hello") [] (λ e. cc) refl refl (omega arith)

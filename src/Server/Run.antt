-- ===== src/Server/Run.antt =====
-- Server::run of Server.cpp and main of main.cpp: the server's socket, the loop that accepts, and
-- a thread for each client, whose turns and the new connections come in any order.
use distributed_ascii_server.Prelude.{
  ℕ, zero, suc, false, Option, none, some, List, [], ◌∷◌, ◌++◌, take, if◌then◌else◌,
}
use distributed_ascii_server.Prelude.Int.{is_at_most_zero_int}
use distributed_ascii_server.Text.{
  Bytes, Run, done, out_of_range, fault, no_fuel, ◌>>=◌ as bind_run, contains, c_str,
}
use distributed_ascii_server.FileSystem.Disk.{Disk}
use distributed_ascii_server.Server.Http.{translate_http_to_ascii, crlf}
use distributed_ascii_server.Server.Task.{bufsize, handle_request, send_response}
use distributed_ascii_server.Sockets.Net.{Net, Ended, returned, thrown, aborted, Call, pure, ◌>>=◌}
use distributed_ascii_server.Sockets.VSocket.{VSocket, close_socket, bind, mark_passive}
use distributed_ascii_server.Sockets.Stream.{new_socket, accept_connection, read, write}

-- Where the thread of a client stands: before a Read, with what it has read so far; before a Write,
-- with the texts that it has left; or in the loop over a chain of blocks that closes on itself.
pub data Stage : Type 0 where
  reading : Bytes → Stage
  writing : List Bytes → Stage
  endless : Stage

pub record Client : Type 0 where
  pub socket : VSocket
  pub stage : Stage

-- How a turn of a thread ends: the thread goes on, or has finished, or an exception leaves it, and
-- std::terminate ends the process.
pub data Turned (U : Type 0) : Type 0 where
  goes_on : Client → U → Turned U
  finished : U → Turned U
  fails : Turned U

pub data Process (U : Type 0) : Type 0 where
  running : List Client → U → Process U
  terminated : Process U

pub data Event : Type 0 where
  connection : Event
  turn : ℕ → Event

-- What task does between its two loops and in the second: the texts for Write.
unfoldable pub reply : Disk → Bytes → Run (List Bytes)
reply d http_request =
    bind_run (translate_http_to_ascii (c_str http_request))
      (λ ascii_request. bind_run (handle_request d (c_str ascii_request)) send_response)

module _ {U : Type 0} (net : Net U) (d : Disk) where
  abbrev pub answered : VSocket → Run (List Bytes) → U → Turned U
  answered socket (done chunks) u = goes_on (record { socket = socket; stage = writing chunks }) u
  answered socket out_of_range u = fails
  answered socket fault u = fails
  answered socket no_fuel u = goes_on (record { socket = socket; stage = endless }) u

  abbrev pub after_read : VSocket → Bytes → Ended (ℕ × Bytes) → U → Turned U
  after_read socket http_request (returned (bytes_read, buffer)) u =
      if is_at_most_zero_int bytes_read
      then answered socket (reply d http_request) u
      else let so_far = http_request ++ take bytes_read buffer in
        if contains (crlf ++ crlf) so_far
        then answered socket (reply d so_far) u
        else goes_on (record { socket = socket; stage = reading so_far }) u
  after_read socket http_request (thrown what) u = fails
  after_read socket http_request aborted u = fails

  -- One turn of task: up to its next call of Read, Write or Close. A thread whose loop does not end
  -- makes none, and the others go on.
  unfoldable pub task_turn : VSocket → Stage → U → Turned U
  unfolding read write close_socket
  task_turn socket (reading http_request) u =
      let (result, u') = read net socket bufsize u in after_read socket http_request result u'
  task_turn socket (writing (chunk ∷ chunks)) u =
      let (_, u') = write net socket chunk u in
      goes_on (record { socket = socket; stage = writing chunks }) u'
  task_turn socket (writing []) u = let (_, u') = close_socket net socket u in finished u'
  task_turn socket endless u = goes_on (record { socket = socket; stage = endless }) u

  abbrev pub resumed : (VSocket → Stage → U → Turned U) → Turned U → Turned U
  resumed rest (goes_on client u) = rest client.socket client.stage u
  resumed rest (finished u) = finished u
  resumed rest fails = fails

  -- task as it runs with no other thread between: the turns, one after the other, at most `fuel`.
  unfoldable pub run_task : ℕ → VSocket → Stage → U → Turned U
  run_task zero socket stage u = goes_on (record { socket = socket; stage = stage }) u
  run_task (suc fuel) socket stage u = resumed (run_task fuel) (task_turn socket stage u)

  abbrev pub placed : List Client → Turned U → Option (List Client × U)
  placed clients (goes_on client u) = some (client ∷ clients, u)
  placed clients (finished u) = some (clients, u)
  placed clients fails = none

  abbrev pub kept : Client → Option (List Client × U) → Option (List Client × U)
  kept client (some (clients, u)) = some (client ∷ clients, u)
  kept client none = none

  -- A turn of one of the threads, counted from the newest.
  unfoldable pub turn_at : ℕ → List Client → U → Option (List Client × U)
  turn_at i [] u = some ([], u)
  turn_at zero (client ∷ clients) u = placed clients (task_turn client.socket client.stage u)
  turn_at (suc i) (client ∷ clients) u = kept client (turn_at i clients u)

  abbrev pub turned : Option (List Client × U) → Process U
  turned (some (clients, u)) = running clients u
  turned none = terminated

  abbrev pub accepted : List Client → Ended VSocket × U → Process U
  accepted clients (returned socket, u) =
      running (record { socket = socket; stage = reading [] } ∷ clients) u
  accepted clients (thrown what, u) = terminated
  accepted clients (aborted, u) = terminated

  -- for( ; ; ) with its detached threads; `memory` is what new finds in a new object.
  unfoldable pub serve_step : VSocket → VSocket → Event → Process U → Process U
  unfolding accept_connection
  serve_step server memory event terminated = terminated
  serve_step server memory connection (running clients u) =
      accepted clients (accept_connection net server memory u)
  serve_step server memory (turn i) (running clients u) = turned (turn_at i clients u)

  unfoldable pub serve : VSocket → VSocket → List Event → Process U → Process U
  serve server memory [] process = process
  serve server memory (event ∷ events) process =
      serve server memory events (serve_step server memory event process)

-- PORT
abbrev pub default_port : ℕ
default_port = 8080

module _ {U : Type 0} (net : Net U) where
  -- The socket of both modes. The port of the constructor is not used.
  unfoldable pub server_socket : VSocket → Call U VSocket
  server_socket memory = do
    server ← new_socket net memory b's' false
    _ ← bind net server default_port
    _ ← mark_passive net server 5
    pure server

  -- The loop, once there is a socket; a throw ends in the handler of main.
  abbrev pub started : VSocket → Disk → List Event → Ended VSocket × U → Ended (Process U)
  started memory d events (returned server, u) =
      returned (serve net d server memory events (running [] u))
  started memory d events (thrown what, u) = thrown what
  started memory d events (aborted, u) = aborted

  -- run in the mode of threads, over the disk that MountSystem has written.
  unfoldable pub run_threads : VSocket → Disk → List Event → U → Ended (Process U)
  unfolding server_socket serve
  run_threads memory d events u = started memory d events (server_socket memory u)

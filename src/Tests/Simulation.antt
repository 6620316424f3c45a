-- ===== src/Tests/Simulation.antt =====
-- The client, the router and the drawing server at work on a disk that holds one drawing.
use distributed_ascii_server.Prelude.{
  none, ℕ, zero, suc, ◌<◌, ◌≡◌, refl, ◌∙◌, true, false, some, [], ◌∷◌, ◌++◌, ◌||◌, arith, length,
  replicate,
}
use distributed_ascii_server.Text.{Bytes, bytes, done, eq_bytes, c_str, rfind, starts_with}
use distributed_ascii_server.Text.Laws.{Free}
use distributed_ascii_server.FileSystem.Disk.{Disk, blank, fread}
use distributed_ascii_server.FileSystem.Directory.{exist_ascii, exist_file, write_file}
use distributed_ascii_server.FileSystem.Drawing.{drawing}
use distributed_ascii_server.FileSystem.Allocate.{IsShaped}
use distributed_ascii_server.FileSystem.WriteFile.{write_file-drawing}
use distributed_ascii_server.Server.Http.{to_string}
use distributed_ascii_server.Simulation.Buffer.{
  SharedMemory, read, write, signal_server, new_shared_memory,
}
use distributed_ascii_server.Simulation.Buffer.Laws.{read-write, read-write_overflow}
use distributed_ascii_server.Simulation.Handler.{build_answer}
use distributed_ascii_server.Simulation.Handler.Laws.{get_message, build_answer_get}
use distributed_ascii_server.Simulation.Adapter.{
  get_figures_protocol, Figures, http_figure, stoi, find_figure, has_object, build_response,
  build_request,
}
use distributed_ascii_server.Simulation.Adapter.Laws.{
  answer, object_line, build_response_lem, build_request_lem,
}
use distributed_ascii_server.Simulation.Threads.{
  step, server_thread, asking, prompting, listening, serving, System, main, tenedor_turn,
  tenedor_thread, turn, Steps, here,
}
use distributed_ascii_server.Simulation.Threads.Baton.{turn_exclusive}
use distributed_ascii_server.Simulation.Threads.Exit.{server_never_closes}
use distributed_ascii_server.Simulation.Threads.Round.{Ready, round}

abbrev name : Bytes
name = bytes "Goku.txt"

abbrev art : Bytes
art = bytes "(o_o)"

drawn :
    (d : Disk) × (write_file name (some art) (some blank) ≡ done (true, some d))
    × (exist_ascii d name ≡ true)
    × (drawing d name ≡ done art)
    × IsShaped d 2 2
unfolding blank exist_file eq_bytes c_str fread
drawn =
    write_file-drawing blank 1 0 name art
      (record { counter = refl; sized = refl; linked = λ i a b. absurd (omega arith) })
      (omega arith)
      (record { reachable = omega arith; taken = λ i h. absurd (omega arith); free = refl })
      (omega arith) (omega arith) (λ e. cc) (omega arith) (omega arith) refl

abbrev fresh : SharedMemory
fresh = record {
  buffer = λ p. 255;
  write_index = 1020;
  read_index = 1020;
  client_semaphore = 0;
  tenedor_semaphore = 0;
  server_semaphore = 0;
  finished = false;
}

read-write_example :
    (m' : SharedMemory) × (read (write fresh (bytes "BEGIN/OBJECTS/END"))
      ≡ done (bytes "BEGIN/OBJECTS/END", m'))
    × (m'.read_index ≡ m'.write_index)
    × (m'.write_index < 1024)
read-write_example =
    read-write fresh (bytes "BEGIN/OBJECTS/END") refl (omega arith) (omega arith) (omega arith)

abbrev long : Bytes
long = replicate 1024 65

long_clean : (n : ℕ) → Free 0 (replicate n 65)
long_clean zero = tt
long_clean (suc n) = (omega arith, long_clean n)

read-write_overflow_example : (m' : SharedMemory) × (read (write fresh long) ≡ done ([], m'))
read-write_overflow_example =
    read-write_overflow fresh long refl (omega arith) refl (long_clean 1024)

abbrev figures : Figures
figures = (0, name ∷ []) ∷ []

single : rfind (bytes "BEGIN/") (answer (bytes "ERROR") (bytes "201")) ≡ some 0
unfolding rfind starts_with
single = refl

other : starts_with (bytes "END") (name ++ bytes "/END") ≡ false
unfolding starts_with
other = refl

turn_exclusive_example : tenedor_thread ≡ tenedor_thread
unfolding turn main tenedor_turn
turn_exclusive_example =
    turn_exclusive {d = blank} {s = main (λ p. 0) []} (λ p. 0) [] tenedor_thread tenedor_thread here
      (λ e. cc) (λ e. cc)

-- The tenedor has asked for the figures.
abbrev asked : System
asked = record (main (λ p. 0) []) {
  memory = signal_server (write (new_shared_memory (λ p. 0)) get_figures_protocol);
  tenedor = asking;
}

asked_steps : Steps blank (main (λ p. 0) []) asked
unfolding turn main tenedor_turn
asked_steps = step here tenedor_thread refl

server_never_closes_example :
    (asked.server ≡ serving)
    × (asked.memory.finished ≡ true → turn blank server_thread asked ≡ none)
server_never_closes_example = server_never_closes (λ p. 0) [] asked_steps

-- The line has been typed, the figures are known, and the buffer is at rest.
abbrev ready : System
ready = record {
  memory = fresh;
  client = prompting;
  tenedor = listening;
  server = serving;
  figures = figures;
  messages = object_line (bytes "0") name ∷ [];
  responses = [];
}

ready-Ready : Ready ready
ready-Ready = record {
  prompted = refl;
  listened = refl;
  served = refl;
  running = refl;
  no_client = refl;
  no_tenedor = refl;
  no_server = refl;
  together = refl;
  inside = omega arith;
}

no_exit :
    (eq_bytes (object_line (bytes "0") name) (bytes "exit")
      || eq_bytes (object_line (bytes "0") name) (bytes "Exit"))
    ≡ false
unfolding eq_bytes
no_exit = refl

built : build_request figures (object_line (bytes "0") name) ≡ done (true, get_message name)
unfolding stoi find_figure has_object eq_bytes
built =
    build_request_lem figures (bytes "0") name (omega arith) (omega arith) (omega arith)
      (omega arith)
    ∙ refl

made : build_answer drawn.0 (get_message name) ≡ done (answer (bytes "OK") art)
made = build_answer_get drawn.0 name (omega arith) (omega arith) other ∙ rw (drawn.2, drawn.3) refl

single_ok : rfind (bytes "BEGIN/") (answer (bytes "OK") art) ≡ some 0
unfolding rfind starts_with
single_ok = refl

replied : build_response (answer (bytes "OK") art) ≡ done (http_figure art)
unfolding eq_bytes
replied = build_response_lem (bytes "OK") art (omega arith) (omega arith) single_ok ∙ refl

fits_reply : (length (http_figure art) < 1024) × Free 0 (http_figure art)
unfolding http_figure to_string
fits_reply = (omega arith, omega arith)

round_example :
    (s' : System) × Steps drawn.0 ready s'
    × Ready s'
    × (s'.responses ≡ ready.responses ++ http_figure art ∷ [])
    × (s'.messages ≡ [])
round_example =
    round drawn.0 ready (object_line (bytes "0") name) (get_message name) (answer (bytes "OK") art)
      (http_figure art) [] ready-Ready refl no_exit built made replied (omega arith, omega arith)
      (omega arith, omega arith) (omega arith, omega arith) fits_reply

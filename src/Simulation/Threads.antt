-- ===== src/Simulation/Threads.antt =====
-- src/Client.cpp, src/Tenedor.cpp, src/DrawingServer.cpp and src/main.cpp: the three threads over
-- the shared buffer. A thread's turn runs from one wait to the next; the semaphores decide whose
-- turn it can be.
pub mod Baton
pub mod Round
pub mod Exit
use distributed_ascii_server.Prelude.{
  ℕ, ◌≡◌, Bool, true, false, ◌||◌, Option, none, some, List, [], ◌∷◌, ◌++◌, if◌then◌else◌,
}
use distributed_ascii_server.Text.{Bytes, bytes, Run, done, ◌>>=◌, eq_bytes}
use distributed_ascii_server.FileSystem.Disk.{Disk}
use distributed_ascii_server.Simulation.Buffer.{
  SharedMemory, new_shared_memory, write, read, signal_client, wait_client, signal_tenedor,
  wait_tenedor, signal_server, wait_server, set_finished, get_finished,
}
use distributed_ascii_server.Simulation.Handler.{build_answer}
use distributed_ascii_server.Simulation.Adapter.{
  Figures, get_figures_protocol, set_server_figures_by_response, build_request, build_response,
}

-- Where a thread stands: at the wait for the list of figures, at the prompt, at the wait for the
-- reply, or at its end.
pub data ClientPlace : Type 0 where
  loading prompting awaiting left : ClientPlace

-- Before its first write, at the wait for the figures, for a message, or for the server's answer.
pub data TenedorPlace : Type 0 where
  starting asking listening relaying stopped : TenedorPlace

pub data ServerPlace : Type 0 where
  serving closed : ServerPlace

pub record System : Type 0 where
  pub memory : SharedMemory
  pub client : ClientPlace
  pub tenedor : TenedorPlace
  pub server : ServerPlace
  pub figures : Figures
  pub messages : List Bytes
  pub responses : List Bytes

-- main: the buffer is new, and the threads are created; `messages` are the lines that the user
-- will type.
unfoldable pub main : (ℕ → ℕ) → List Bytes → System
main garbage messages = record {
  memory = new_shared_memory garbage;
  client = loading;
  tenedor = starting;
  server = serving;
  figures = [];
  messages = messages;
  responses = [];
}

unfoldable pub client_message : System → List Bytes → Option (Run System)
client_message s [] = none
client_message s (message ∷ messages) = some (
    done (
      if eq_bytes message (bytes "exit") || eq_bytes message (bytes "Exit")
      then record s {
        memory = signal_tenedor (set_finished s.memory true);
        client = left;
        messages = messages;
      }
      else record s {
        memory = signal_tenedor (write s.memory message);
        client = awaiting;
        messages = messages;
      }))

-- Client::run. No result is a thread that cannot go on.
unfoldable pub client_turn : System → ClientPlace → Option (Run System)
client_turn s loading = elim (wait_client s.memory) [
  | none ↦ none
  | some m ↦ some (done (record s { memory = m; client = prompting }))
]
client_turn s prompting = client_message s s.messages
client_turn s awaiting = elim (wait_client s.memory) [
  | none ↦ none
  | some m ↦ some (
      read m >>= λ got.
      done (record s { memory = got.1; client = prompting; responses = s.responses ++ got.0 ∷ [] }))
]
client_turn s left = none

-- What the tenedor does with a request of the client, once the adapter has read it.
unfoldable pub tenedor_request : System → SharedMemory → Bool × Bytes → System
tenedor_request s m (result, response) =
    if result
    then record s { memory = signal_server (write m response); tenedor = relaying }
    else record s { memory = signal_client (write m response); tenedor = listening }

-- Tenedor::run.
unfoldable pub tenedor_turn : System → TenedorPlace → Option (Run System)
tenedor_turn s starting = some (
    done
      (record s { memory = signal_server (write s.memory get_figures_protocol); tenedor = asking }))
tenedor_turn s asking = elim (wait_tenedor s.memory) [
  | none ↦ none
  | some m ↦ some (
      read m >>= λ got. set_server_figures_by_response s.figures got.0 >>= λ figures.
      done (record s { memory = signal_client got.1; tenedor = listening; figures = figures }))
]
tenedor_turn s listening = elim (wait_tenedor s.memory) [
  | none ↦ none
  | some m ↦ some (
      if get_finished m
      then done (record s { memory = m; tenedor = stopped })
      else (read m >>= λ got.
          build_request s.figures got.0 >>= λ request. done (tenedor_request s got.1 request)))
]
tenedor_turn s relaying = elim (wait_tenedor s.memory) [
  | none ↦ none
  | some m ↦ some (
      read m >>= λ got. build_response got.0 >>= λ response.
      done (record s { memory = signal_client (write got.1 response); tenedor = listening }))
]
tenedor_turn s stopped = none

-- DrawingServer::run.
unfoldable pub server_turn : Disk → System → ServerPlace → Option (Run System)
server_turn d s serving = elim (wait_server s.memory) [
  | none ↦ none
  | some m ↦ some (
      if get_finished m
      then done (record s { memory = m; server = closed })
      else (read m >>= λ got. build_answer d got.0 >>= λ answer.
          done (record s { memory = signal_tenedor (write got.1 answer) })))
]
server_turn d s closed = none

pub data Thread : Type 0 where
  client_thread tenedor_thread server_thread : Thread

unfoldable pub turn : Disk → Thread → System → Option (Run System)
turn d client_thread s = client_turn s s.client
turn d tenedor_thread s = tenedor_turn s s.tenedor
turn d server_thread s = server_turn d s s.server

pub data Steps (d : Disk) (s : System) : System → Type 0 where
  here : Steps d s s
  step :
      {s₁ s₂ : System} → Steps d s s₁ → (t : Thread) → turn d t s₁ ≡ some (done s₂) → Steps d s s₂

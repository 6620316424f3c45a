-- ===== src/Simulation/Threads/Round.antt =====
-- One request goes round: from the client through the tenedor to the server and back.
use distributed_ascii_server.Prelude.{
  ℕ, ◌+◌, ◌<◌, ◌≡◌, refl, ap, ◌∙◌, true, false, ◌||◌, some, List, [], ◌∷◌, ◌++◌, arith, length,
  ne→==, subst,
}
use distributed_ascii_server.Text.{
  Bytes, bytes, Run, done, out_of_range, fault, no_fuel, ◌>>=◌, eq_bytes,
}
use distributed_ascii_server.Text.Laws.{Free}
use distributed_ascii_server.FileSystem.Disk.{Disk}
use distributed_ascii_server.Simulation.Buffer.{
  SharedMemory, write, read, signal_client, wait_client, signal_tenedor, wait_tenedor,
  signal_server, wait_server, get_finished, read_loop,
}
use distributed_ascii_server.Simulation.Buffer.Laws.{read-write}
use distributed_ascii_server.Simulation.Handler.{build_answer}
use distributed_ascii_server.Simulation.Adapter.{build_request, build_response}
use distributed_ascii_server.Simulation.Threads.{
  prompting, awaiting, listening, relaying, serving, System, client_message, client_turn,
  tenedor_request, tenedor_turn, server_turn, client_thread, tenedor_thread, server_thread, turn,
  Steps, here, step,
}

-- The user is at the prompt, the other two threads wait, and all that was written has been read.
pub record Ready (s : System) : Type 0 where
  pub prompted : s.client ≡ prompting
  pub listened : s.tenedor ≡ listening
  pub served : s.server ≡ serving
  pub running : s.memory.finished ≡ false
  pub no_client : s.memory.client_semaphore ≡ 0
  pub no_tenedor : s.memory.tenedor_semaphore ≡ 0
  pub no_server : s.memory.server_semaphore ≡ 0
  pub together : s.memory.read_index ≡ s.memory.write_index
  pub inside : s.memory.write_index < 1024

-- A text that the buffer carries whole.
abbrev pub Fits : Bytes → Type 0
Fits t = (length t < 1024) × Free 0 t

-- A buffer at rest.
record AtRest (m : SharedMemory) : Type 0 where
  running : m.finished ≡ false
  no_client : m.client_semaphore ≡ 0
  no_tenedor : m.tenedor_semaphore ≡ 0
  no_server : m.server_semaphore ≡ 0
  together : m.read_index ≡ m.write_index
  inside : m.write_index < 1024

Ready-AtRest : {s : System} → Ready s → AtRest s.memory
Ready-AtRest r = record {
  running = r.running;
  no_client = r.no_client;
  no_tenedor = r.no_tenedor;
  no_server = r.no_server;
  together = r.together;
  inside = r.inside;
}

-- Reading moves only the index.
read_keeps :
    (m m' : SharedMemory) (t : Bytes)
    → read m ≡ done (t, m')
    → m' ≡ record m { read_index = m'.read_index }
unfolding read
read_keeps m m' t h = loop (read_loop 1025 m.buffer m.read_index []) h
  where
    moved : Bytes × ℕ → Run (Bytes × SharedMemory)
    moved got = done (got.0, record m { read_index = got.1 })

    loop :
        (r : Run (Bytes × ℕ))
        → (r >>= moved) ≡ done (t, m')
        → m' ≡ record m { read_index = m'.read_index }
    loop (done (u, k)) h =
        let e : record m { read_index = k } ≡ m' = cc in
        subst (λ (x : SharedMemory). x ≡ record m { read_index = x.read_index }) e refl
    loop out_of_range h = cc
    loop fault h = cc
    loop no_fuel h = cc

-- What one thread writes, the next one reads.
carry :
    (m : SharedMemory) (t : Bytes)
    → AtRest m
    → Fits t
    → (m' : SharedMemory) × (read (write m t) ≡ done (t, m')) × AtRest m'
carry m t rest (short, clean) =
    let (m', got, together, inside) = read-write m t rest.together rest.inside short clean in
    let kept = read_keeps (write m t) m' t got in
    (
      m',
      got,
      record {
        running = unfold write in (ap (λ (x : SharedMemory). x.finished) kept ∙ rest.running);
        no_client =
            unfold write in (ap (λ (x : SharedMemory). x.client_semaphore) kept ∙ rest.no_client);
        no_tenedor =
            unfold write in (ap (λ (x : SharedMemory). x.tenedor_semaphore) kept ∙ rest.no_tenedor);
        no_server =
            unfold write in (ap (λ (x : SharedMemory). x.server_semaphore) kept ∙ rest.no_server);
        together = together;
        inside = inside;
      },
    )

wait-signal_client : (m : SharedMemory) → wait_client (signal_client m) ≡ some m
unfolding wait_client signal_client
wait-signal_client m =
    rw (ne→== (m.client_semaphore + 1) 0 (omega arith))
      (ap (λ (k : ℕ). some (record m { client_semaphore = k })) (omega arith))

wait-signal_tenedor : (m : SharedMemory) → wait_tenedor (signal_tenedor m) ≡ some m
unfolding wait_tenedor signal_tenedor
wait-signal_tenedor m =
    rw (ne→== (m.tenedor_semaphore + 1) 0 (omega arith))
      (ap (λ (k : ℕ). some (record m { tenedor_semaphore = k })) (omega arith))

wait-signal_server : (m : SharedMemory) → wait_server (signal_server m) ≡ some m
unfolding wait_server signal_server
wait-signal_server m =
    rw (ne→== (m.server_semaphore + 1) 0 (omega arith))
      (ap (λ (k : ℕ). some (record m { server_semaphore = k })) (omega arith))

finished-write : (m : SharedMemory) (t : Bytes) → get_finished (write m t) ≡ m.finished
unfolding get_finished write
finished-write m t = refl

-- The system in the middle of a round: whose text is in the buffer, and who has been signalled.
abbrev asked : System → List Bytes → SharedMemory → System
asked s rest m = record s { memory = signal_tenedor m; client = awaiting; messages = rest }

abbrev sent_on : System → List Bytes → SharedMemory → System
sent_on s rest m = record s {
  memory = signal_server m;
  client = awaiting;
  tenedor = relaying;
  messages = rest;
}

abbrev answered : System → List Bytes → SharedMemory → System
answered s rest m = record s {
  memory = signal_tenedor m;
  client = awaiting;
  tenedor = relaying;
  messages = rest;
}

abbrev returned : System → List Bytes → SharedMemory → System
returned s rest m = record s {
  memory = signal_client m;
  client = awaiting;
  tenedor = listening;
  messages = rest;
}

abbrev ended : System → List Bytes → Bytes → SharedMemory → System
ended s rest reply m = record s {
  memory = m;
  client = prompting;
  tenedor = listening;
  messages = rest;
  responses = s.responses ++ reply ∷ [];
}

turn-asked :
    (d : Disk) (s : System) (line : Bytes) (rest : List Bytes)
    → s.client ≡ prompting
    → s.messages ≡ line ∷ rest
    → (eq_bytes line (bytes "exit") || eq_bytes line (bytes "Exit")) ≡ false
    → turn d client_thread s ≡ some (done (asked s rest (write s.memory line)))
unfolding turn client_turn client_message
turn-asked d s line rest prompted typed goes = rw (prompted, typed, goes) refl

turn-sent_on :
    (d : Disk) (s : System) (rest : List Bytes) (m m₁ : SharedMemory) (line request : Bytes)
    → s.tenedor ≡ listening
    → m.finished ≡ false
    → read (write m line) ≡ done (line, m₁)
    → build_request s.figures line ≡ done (true, request)
    → turn d tenedor_thread (asked s rest (write m line))
      ≡ some (done (sent_on s rest (write m₁ request)))
unfolding turn tenedor_turn tenedor_request
turn-sent_on d s rest m m₁ line request listened running got built =
    rw
      (
        listened,
        tenedor_turn,
        wait-signal_tenedor (write m line),
        finished-write m line ∙ running,
        got,
        built,
      )
      refl

turn-answered :
    (d : Disk) (s : System) (rest : List Bytes) (m m₁ : SharedMemory) (request answer : Bytes)
    → s.server ≡ serving
    → m.finished ≡ false
    → read (write m request) ≡ done (request, m₁)
    → build_answer d request ≡ done answer
    → turn d server_thread (sent_on s rest (write m request))
      ≡ some (done (answered s rest (write m₁ answer)))
unfolding turn server_turn
turn-answered d s rest m m₁ request answer served running got built =
    ap (server_turn d (sent_on s rest (write m request))) served
    ∙ rw
        (
          server_turn,
          wait-signal_server (write m request),
          finished-write m request ∙ running,
          got,
          built,
        )
        refl

turn-returned :
    (d : Disk) (s : System) (rest : List Bytes) (m m₁ : SharedMemory) (answer reply : Bytes)
    → read (write m answer) ≡ done (answer, m₁)
    → build_response answer ≡ done reply
    → turn d tenedor_thread (answered s rest (write m answer))
      ≡ some (done (returned s rest (write m₁ reply)))
unfolding turn tenedor_turn
turn-returned d s rest m m₁ answer reply got built =
    rw (tenedor_turn, wait-signal_tenedor (write m answer), got, built) refl

turn-ended :
    (d : Disk) (s : System) (rest : List Bytes) (m m₁ : SharedMemory) (reply : Bytes)
    → read (write m reply) ≡ done (reply, m₁)
    → turn d client_thread (returned s rest (write m reply)) ≡ some (done (ended s rest reply m₁))
unfolding turn client_turn
turn-ended d s rest m m₁ reply got = rw (client_turn, wait-signal_client (write m reply), got) refl

-- A line that the tenedor sends on to the server comes back as the reply that the tenedor makes of
-- the server's answer, and the system is ready for the next line. Each text on the way fits the
-- buffer and has no NUL.
pub round :
    (d : Disk) (s : System) (line request answer reply : Bytes) (rest : List Bytes)
    → Ready s
    → s.messages ≡ line ∷ rest
    → (eq_bytes line (bytes "exit") || eq_bytes line (bytes "Exit")) ≡ false
    → build_request s.figures line ≡ done (true, request)
    → build_answer d request ≡ done answer
    → build_response answer ≡ done reply
    → Fits line
    → Fits request
    → Fits answer
    → Fits reply
    → (s' : System) × Steps d s s'
      × Ready s'
      × (s'.responses ≡ s.responses ++ reply ∷ [])
      × (s'.messages ≡ rest)
round d s line request answer reply rest ready typed goes built made replied fits_line fits_request
      fits_answer fits_reply =
    let (m₁, got₁, rest₁) = carry s.memory line (Ready-AtRest ready) fits_line in
    let (m₂, got₂, rest₂) = carry m₁ request rest₁ fits_request in
    let (m₃, got₃, rest₃) = carry m₂ answer rest₂ fits_answer in
    let (m₄, got₄, rest₄) = carry m₃ reply rest₃ fits_reply in
    (
      ended s rest reply m₄,
      step
          (step
            (step
              (step (step here client_thread (turn-asked d s line rest ready.prompted typed goes))
                tenedor_thread
                (turn-sent_on d s rest s.memory m₁ line request ready.listened ready.running got₁
                  built))
              server_thread
              (turn-answered d s rest m₁ m₂ request answer ready.served rest₁.running got₂ made))
            tenedor_thread (turn-returned d s rest m₂ m₃ answer reply got₃ replied))
          client_thread (turn-ended d s rest m₃ m₄ reply got₄),
      record {
        prompted = refl;
        listened = refl;
        served = ready.served;
        running = rest₄.running;
        no_client = rest₄.no_client;
        no_tenedor = rest₄.no_tenedor;
        no_server = rest₄.no_server;
        together = rest₄.together;
        inside = rest₄.inside;
      },
      refl,
      refl,
    )

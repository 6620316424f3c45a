-- ===== src/Simulation/Threads/Baton.antt =====
-- At most one thread can go on.
use distributed_ascii_server.Prelude.{
  ℕ, ◌+◌, ◌≤◌, ◌<◌, ◌≡◌, ◌≢◌, refl, inl, inr, Bool, true, false, ◌||◌, Option, none, some, List, [],
  ◌∷◌, arith, Bool-cases, subst,
}
use distributed_ascii_server.Text.{
  Bytes, bytes, Run, done, ◌>>=◌, eq_bytes, out_of_range, fault, no_fuel,
}
use distributed_ascii_server.FileSystem.Disk.{Disk}
use distributed_ascii_server.Simulation.Buffer.{
  SharedMemory, new_shared_memory, write, read, signal_client, wait_client, signal_tenedor,
  wait_tenedor, signal_server, wait_server, set_finished, get_finished, read_loop,
}
use distributed_ascii_server.Simulation.Handler.{build_answer}
use distributed_ascii_server.Simulation.Adapter.{
  build_request, build_response, set_server_figures_by_response,
}
use distributed_ascii_server.Simulation.Threads.{
  ServerPlace, TenedorPlace, ClientPlace, loading, prompting, awaiting, left, starting, asking,
  listening, relaying, stopped, serving, closed, System, main, client_message, client_turn,
  tenedor_request, tenedor_turn, server_turn, Thread, client_thread, tenedor_thread, server_thread,
  turn, Steps, here, step,
}

abbrev pub prompts : ClientPlace → ℕ
prompts prompting = 1
prompts _ = 0

abbrev pub starts : TenedorPlace → ℕ
starts starting = 1
starts _ = 0

abbrev pub posts : SharedMemory → ℕ
posts m = m.client_semaphore + m.tenedor_semaphore + m.server_semaphore

abbrev pub baton : System → ℕ
baton s = posts s.memory + prompts s.client + starts s.tenedor

-- A turn that keeps the count within n.
abbrev Held : ℕ → Run System → Type 0
Held n (done s) = baton s ≤ n
Held n out_of_range = Unit
Held n fault = Unit
Held n no_fuel = Unit

abbrev Keeps : ℕ → Option (Run System) → Type 0
Keeps n none = Unit
Keeps n (some r) = Held n r

Held-bind {ℓ} :
    {A : Type ℓ} (n : ℕ) (r : Run A) (f : A → Run System)
    → ((a : A) → Held n (f a))
    → Held n (r >>= f)
Held-bind n (done a) f h = h a
Held-bind n out_of_range f h = tt
Held-bind n fault f h = tt
Held-bind n no_fuel f h = tt

Held-read :
    (n : ℕ) (m : SharedMemory) (f : Bytes × SharedMemory → Run System)
    → ((t : Bytes) (k : ℕ) → Held n (f (t, record m { read_index = k })))
    → Held n (read m >>= f)
unfolding read
Held-read n m f h = loop (read_loop 1025 m.buffer m.read_index [])
  where
    loop :
        (r : Run (Bytes × ℕ))
        → Held n ((r >>= λ got. done (got.0, record m { read_index = got.1 })) >>= f)
    loop (done (t, k)) = h t k
    loop out_of_range = tt
    loop fault = tt
    loop no_fuel = tt

Keeps-wait :
    (n : ℕ) (o : Option SharedMemory) (f : SharedMemory → Run System)
    → ((m : SharedMemory) → o ≡ some m → Held n (f m))
    → Keeps n (elim o [ none ↦ none | some m ↦ some (f m) ])
Keeps-wait n none f h = tt
Keeps-wait n (some m) f h = h m refl

posts-wait_client : (m m' : SharedMemory) → wait_client m ≡ some m' → posts m' + 1 ≡ posts m
unfolding wait_client
posts-wait_client m m' h = ground arith

posts-wait_tenedor : (m m' : SharedMemory) → wait_tenedor m ≡ some m' → posts m' + 1 ≡ posts m
unfolding wait_tenedor
posts-wait_tenedor m m' h = ground arith

posts-wait_server : (m m' : SharedMemory) → wait_server m ≡ some m' → posts m' + 1 ≡ posts m
unfolding wait_server
posts-wait_server m m' h = ground arith

client_turn-Keeps :
    (s : System) (p : ClientPlace) → s.client ≡ p → Keeps (baton s) (client_turn s p)
unfolding client_turn client_message signal_tenedor set_finished write
client_turn-Keeps s loading at =
    Keeps-wait (baton s) (wait_client s.memory) _
      (λ m e. rw at (omega (arith, posts-wait_client s.memory m e)))
client_turn-Keeps s prompting at = prompt s.messages
  where
    prompt : (ts : List Bytes) → Keeps (baton s) (client_message s ts)
    prompt [] = tt
    prompt (t ∷ ts) = elim (Bool-cases (eq_bytes t (bytes "exit") || eq_bytes t (bytes "Exit"))) [
      | inl e ↦ rw (e, at) (omega arith)
      | inr e ↦ rw (e, at) (omega arith)
    ]
client_turn-Keeps s awaiting at =
    Keeps-wait (baton s) (wait_client s.memory) _ (λ m e.
      Held-read (baton s) m _ (λ t k. rw at (omega (arith, posts-wait_client s.memory m e))))
client_turn-Keeps s left at = tt

tenedor_turn-Keeps :
    (s : System) (p : TenedorPlace) → s.tenedor ≡ p → Keeps (baton s) (tenedor_turn s p)
unfolding tenedor_turn tenedor_request signal_server signal_client write
tenedor_turn-Keeps s starting at = rw at (omega arith)
tenedor_turn-Keeps s asking at = Keeps-wait (baton s) (wait_tenedor s.memory) _ (λ m e.
    Held-read (baton s) m _ (λ t k.
      Held-bind (baton s) (set_server_figures_by_response s.figures t) _
        (λ figures. rw at (omega (arith, posts-wait_tenedor s.memory m e)))))
tenedor_turn-Keeps s listening at = Keeps-wait (baton s) (wait_tenedor s.memory) _ (λ m e.
    elim (Bool-cases (get_finished m)) [
      | inl f ↦ rw (f, at) (omega (arith, posts-wait_tenedor s.memory m e))
      | inr f ↦ rw f (
          Held-read (baton s) m _ (λ t k.
            Held-bind (baton s) (build_request s.figures t) _ (λ request.
              request_Held request (record m { read_index = k })
                (posts-wait_tenedor s.memory m e))))
    ])
  where
    request_Held :
        (request : Bool × Bytes) (m : SharedMemory)
        → posts m + 1 ≡ posts s.memory
        → baton (tenedor_request s m request) ≤ baton s
    request_Held (true, response) m e = rw at (omega (arith, e))
    request_Held (false, response) m e = rw at (omega (arith, e))
tenedor_turn-Keeps s relaying at = Keeps-wait (baton s) (wait_tenedor s.memory) _ (λ m e.
    Held-read (baton s) m _ (λ t k.
      Held-bind (baton s) (build_response t) _
        (λ response. rw at (omega (arith, posts-wait_tenedor s.memory m e)))))
tenedor_turn-Keeps s stopped at = tt

server_turn-Keeps : (d : Disk) (s : System) (p : ServerPlace) → Keeps (baton s) (server_turn d s p)
unfolding server_turn signal_tenedor write
server_turn-Keeps d s serving = Keeps-wait (baton s) (wait_server s.memory) _ (λ m e.
    elim (Bool-cases (get_finished m)) [
      | inl f ↦ rw f (omega (arith, posts-wait_server s.memory m e))
      | inr f ↦ rw f (
          Held-read (baton s) m _ (λ t k.
            Held-bind (baton s) (build_answer d t) _
              (λ answer. omega (arith, posts-wait_server s.memory m e))))
    ])
server_turn-Keeps d s closed = tt

turn-Keeps : (d : Disk) (t : Thread) (s : System) → Keeps (baton s) (turn d t s)
unfolding turn
turn-Keeps d client_thread s = client_turn-Keeps s s.client refl
turn-Keeps d tenedor_thread s = tenedor_turn-Keeps s s.tenedor refl
turn-Keeps d server_thread s = server_turn-Keeps d s s.server

pub Steps-baton : {d : Disk} {s s' : System} → Steps d s s' → baton s' ≤ baton s
Steps-baton here = omega arith
Steps-baton {d} {s} {s'} (step {s₁} steps t went) =
    let kept : Keeps (baton s₁) (some (done s')) =
      subst (Keeps (baton s₁)) went (turn-Keeps d t s₁) in
    omega (arith, kept, Steps-baton steps)

-- What a thread needs to go on.
abbrev share : Thread → System → ℕ
share client_thread s = s.memory.client_semaphore + prompts s.client
share tenedor_thread s = s.memory.tenedor_semaphore + starts s.tenedor
share server_thread s = s.memory.server_semaphore

blocked_client :
    (s : System) (p : ClientPlace)
    → s.client ≡ p
    → client_turn s p ≢ none
    → 0 < share client_thread s
unfolding client_turn wait_client
blocked_client s loading at goes = ground arith
blocked_client s prompting at goes = rw at (omega arith)
blocked_client s awaiting at goes = ground arith
blocked_client s left at goes = absurd (goes refl)

blocked_tenedor :
    (s : System) (p : TenedorPlace)
    → s.tenedor ≡ p
    → tenedor_turn s p ≢ none
    → 0 < share tenedor_thread s
unfolding tenedor_turn wait_tenedor
blocked_tenedor s starting at goes = rw at (omega arith)
blocked_tenedor s asking at goes = ground arith
blocked_tenedor s listening at goes = ground arith
blocked_tenedor s relaying at goes = ground arith
blocked_tenedor s stopped at goes = absurd (goes refl)

blocked_server :
    (d : Disk) (s : System) (p : ServerPlace) → server_turn d s p ≢ none → 0 < share server_thread s
unfolding server_turn wait_server
blocked_server d s serving goes = ground arith
blocked_server d s closed goes = absurd (goes refl)

turn-share : (d : Disk) (t : Thread) (s : System) → turn d t s ≢ none → 0 < share t s
unfolding turn
turn-share d client_thread s goes = blocked_client s s.client refl goes
turn-share d tenedor_thread s goes = blocked_tenedor s s.tenedor refl goes
turn-share d server_thread s goes = blocked_server d s s.server goes

-- At most one thread can go on in any state that the three threads reach, so no two of them are at
-- the buffer at once.
pub turn_exclusive :
    {d : Disk} {s : System} (garbage : ℕ → ℕ) (messages : List Bytes) (t u : Thread)
    → Steps d (main garbage messages) s
    → turn d t s ≢ none
    → turn d u s ≢ none
    → t ≡ u
unfolding main new_shared_memory
turn_exclusive {d} {s} garbage messages t u steps goes goes' =
    same t u (turn-share d t s goes) (turn-share d u s goes') (Steps-baton steps)
  where
    same : (t u : Thread) → 0 < share t s → 0 < share u s → baton s ≤ 1 → t ≡ u
    same client_thread client_thread h k one = refl
    same tenedor_thread tenedor_thread h k one = refl
    same server_thread server_thread h k one = refl
    same client_thread tenedor_thread h k one = absurd (omega arith)
    same client_thread server_thread h k one = absurd (omega arith)
    same tenedor_thread client_thread h k one = absurd (omega arith)
    same tenedor_thread server_thread h k one = absurd (omega arith)
    same server_thread client_thread h k one = absurd (omega arith)
    same server_thread tenedor_thread h k one = absurd (omega arith)

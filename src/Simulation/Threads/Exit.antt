-- ===== src/Simulation/Threads/Exit.antt =====
-- The end of the simulation: what the exit of the client does to the drawing server's thread.
use distributed_ascii_server.Prelude.{
  ℕ, ◌+◌, ◌≤◌, ◌≡◌, refl, sym, ap, ◌∙◌, ◌⊎◌, inl, inr, Bool, true, false, ◌||◌, Option, none, some,
  List, [], ◌∷◌, arith, Bool-cases, subst,
}
use distributed_ascii_server.Text.{
  Bytes, bytes, Run, done, ◌>>=◌, eq_bytes, out_of_range, fault, no_fuel,
}
use distributed_ascii_server.FileSystem.Disk.{Disk}
use distributed_ascii_server.Simulation.Buffer.{
  SharedMemory, new_shared_memory, write, read, signal_client, wait_client, signal_tenedor,
  wait_tenedor, signal_server, wait_server, set_finished, get_finished, read_loop,
}
use distributed_ascii_server.Simulation.Handler.{build_answer}
use distributed_ascii_server.Simulation.Adapter.{
  build_request, build_response, set_server_figures_by_response,
}
use distributed_ascii_server.Simulation.Threads.{
  ServerPlace, TenedorPlace, ClientPlace, loading, prompting, awaiting, left, starting, asking,
  listening, relaying, stopped, serving, closed, System, main, client_message, client_turn,
  tenedor_request, tenedor_turn, server_turn, Thread, client_thread, tenedor_thread, server_thread,
  turn, Steps, here, step,
}
use distributed_ascii_server.Simulation.Threads.Baton.{prompts, starts, baton, Steps-baton}

-- With `finished` set, nobody has woken the drawing server or is yet to start by waking it.
abbrev Silent : Bool → ℕ → Type 0
Silent flag wakes = (flag ≡ false) ⊎ (wakes ≡ 0)

abbrev wakes : System → ℕ
wakes s = s.memory.server_semaphore + starts s.tenedor

abbrev IsQuiet : System → Type 0
IsQuiet s = (s.server ≡ serving) × Silent s.memory.finished (wakes s)

abbrev Ensured : Run System → Type 0
Ensured (done s) = IsQuiet s
Ensured out_of_range = Unit
Ensured fault = Unit
Ensured no_fuel = Unit

abbrev IsKept : Option (Run System) → Type 0
IsKept none = Unit
IsKept (some r) = Ensured r

Silent-carry : (f f' : Bool) (n n' : ℕ) → f' ≡ f → n' ≤ n → Silent f n → Silent f' n'
Silent-carry f f' n n' same less (inl unset) = inl (same ∙ unset)
Silent-carry f f' n n' same less (inr quiet) = inr (omega arith)

Ensured-bind {ℓ} :
    {A : Type ℓ} (r : Run A) (f : A → Run System) → ((a : A) → Ensured (f a)) → Ensured (r >>= f)
Ensured-bind (done a) f h = h a
Ensured-bind out_of_range f h = tt
Ensured-bind fault f h = tt
Ensured-bind no_fuel f h = tt

Ensured-read :
    (m : SharedMemory) (f : Bytes × SharedMemory → Run System)
    → ((t : Bytes) (k : ℕ) → Ensured (f (t, record m { read_index = k })))
    → Ensured (read m >>= f)
unfolding read
Ensured-read m f h = loop (read_loop 1025 m.buffer m.read_index [])
  where
    loop :
        (r : Run (Bytes × ℕ))
        → Ensured ((r >>= λ got. done (got.0, record m { read_index = got.1 })) >>= f)
    loop (done (t, k)) = h t k
    loop out_of_range = tt
    loop fault = tt
    loop no_fuel = tt

wait-IsKept :
    (o : Option SharedMemory) (f : SharedMemory → Run System)
    → ((m : SharedMemory) → o ≡ some m → Ensured (f m))
    → IsKept (elim o [ none ↦ none | some m ↦ some (f m) ])
wait-IsKept none f h = tt
wait-IsKept (some m) f h = h m refl

get_finished_lem : (m : SharedMemory) → get_finished m ≡ m.finished
unfolding get_finished
get_finished_lem m = refl

-- A wait at another semaphore changes neither the flag nor the server's semaphore.
abbrev IsSame : SharedMemory → SharedMemory → Type 0
IsSame m m' = (m'.finished ≡ m.finished) × (m'.server_semaphore ≡ m.server_semaphore)

client-IsSame : (m m' : SharedMemory) → wait_client m ≡ some m' → IsSame m m'
unfolding wait_client
client-IsSame m m' h = ground arith

tenedor-IsSame : (m m' : SharedMemory) → wait_tenedor m ≡ some m' → IsSame m m'
unfolding wait_tenedor
tenedor-IsSame m m' h = ground arith

module _ (s : System) (quiet : IsQuiet s) where
  -- A turn that leaves the flag alone and wakes the server no more often.
  carried : (f : Bool) (n : ℕ) → f ≡ s.memory.finished → n ≤ wakes s → Silent f n
  carried f n same less = Silent-carry s.memory.finished f (wakes s) n same less quiet.1

  client_turn-IsKept : (p : ClientPlace) → s.client ≡ p → baton s ≤ 1 → IsKept (client_turn s p)
  unfolding client_turn client_message signal_tenedor set_finished write
  client_turn-IsKept loading at one = wait-IsKept (wait_client s.memory) _ (λ m e.
      let (flag, sem) = client-IsSame s.memory m e in
      (
        quiet.0,
        carried m.finished (m.server_semaphore + starts s.tenedor) flag (omega (arith, sem)),
      ))
  client_turn-IsKept prompting at one = prompt s.messages
    where
      alone : wakes s ≡ 0
      alone = omega (arith, ap prompts at)

      prompt : (ts : List Bytes) → IsKept (client_message s ts)
      prompt [] = tt
      prompt (t ∷ ts) = elim (Bool-cases (eq_bytes t (bytes "exit") || eq_bytes t (bytes "Exit"))) [
        | inl e ↦ rw e (quiet.0, inr alone)
        | inr e ↦ rw e (quiet.0, inr alone)
      ]
  client_turn-IsKept awaiting at one = wait-IsKept (wait_client s.memory) _ (λ m e.
      Ensured-read m _ (λ t k.
        let (flag, sem) = client-IsSame s.memory m e in
        (
          quiet.0,
          carried m.finished (m.server_semaphore + starts s.tenedor) flag (omega (arith, sem)),
        )))
  client_turn-IsKept left at one = tt

  tenedor_turn-IsKept : (p : TenedorPlace) → s.tenedor ≡ p → IsKept (tenedor_turn s p)
  unfolding tenedor_turn tenedor_request signal_server signal_client write
  tenedor_turn-IsKept starting at = (
    quiet.0,
    carried s.memory.finished (s.memory.server_semaphore + 1 + 0) refl
        (omega (arith, ap starts at)),
  )
  tenedor_turn-IsKept asking at = wait-IsKept (wait_tenedor s.memory) _ (λ m e.
      Ensured-read m _ (λ t k.
        Ensured-bind (set_server_figures_by_response s.figures t) _ (λ figures.
          let (flag, sem) = tenedor-IsSame s.memory m e in
          (quiet.0, carried m.finished (m.server_semaphore + 0) flag (omega (arith, sem))))))
  tenedor_turn-IsKept listening at = wait-IsKept (wait_tenedor s.memory) _ (λ m e.
      let (flag, sem) = tenedor-IsSame s.memory m e in
      elim (Bool-cases (get_finished m)) [
        | inl f ↦
            rw f (quiet.0, carried m.finished (m.server_semaphore + 0) flag (omega (arith, sem)))
        | inr f ↦ rw f (
            Ensured-read m _ (λ t k. Ensured-bind (build_request s.figures t) _ (λ request.
              requested request (record m { read_index = k }) (sym (get_finished_lem m) ∙ f))))
      ])
    where
      requested :
          (request : Bool × Bytes) (m : SharedMemory)
          → m.finished ≡ false
          → IsQuiet (tenedor_request s m request)
      requested (true, response) m unset = (quiet.0, inl unset)
      requested (false, response) m unset = (quiet.0, inl unset)
  tenedor_turn-IsKept relaying at = wait-IsKept (wait_tenedor s.memory) _ (λ m e.
      Ensured-read m _ (λ t k. Ensured-bind (build_response t) _ (λ response.
        let (flag, sem) = tenedor-IsSame s.memory m e in
        (quiet.0, carried m.finished (m.server_semaphore + 0) flag (omega (arith, sem))))))
  tenedor_turn-IsKept stopped at = tt

  -- A server that is woken finds the flag unset.
  woken : (m : SharedMemory) → wait_server s.memory ≡ some m → m.finished ≡ false
  unfolding wait_server
  woken m e = elim quiet.1 [ inl unset ↦ ground arith | inr asleep ↦ ground arith ]

  server_turn-IsKept : (d : Disk) (p : ServerPlace) → s.server ≡ p → IsKept (server_turn d s p)
  unfolding server_turn signal_tenedor write
  server_turn-IsKept d serving at = wait-IsKept (wait_server s.memory) _ (λ m e.
      let unset = woken m e in
      rw (get_finished_lem m ∙ unset) (
        Ensured-read m _
          (λ t k. Ensured-bind (build_answer d t) _ (λ answer. (quiet.0, inl unset)))))
  server_turn-IsKept d closed at = tt

  turn-IsKept : (d : Disk) (t : Thread) → baton s ≤ 1 → IsKept (turn d t s)
  unfolding turn
  turn-IsKept d client_thread one = client_turn-IsKept s.client refl one
  turn-IsKept d tenedor_thread one = tenedor_turn-IsKept s.tenedor refl
  turn-IsKept d server_thread one = server_turn-IsKept d s.server refl

  -- Once the client has left, the server's thread cannot go on.
  asleep : (d : Disk) → s.memory.finished ≡ true → turn d server_thread s ≡ none
  unfolding turn server_turn wait_server
  asleep d flag = rw quiet.0 (ground arith)

Steps-IsQuiet : {d : Disk} {s s' : System} → Steps d s s' → baton s ≤ 1 → IsQuiet s → IsQuiet s'
Steps-IsQuiet here one quiet = quiet
Steps-IsQuiet {d} {s} {s'} (step {s₁} steps t went) one quiet =
    let before = Steps-IsQuiet steps one quiet in
    subst IsKept went (turn-IsKept s₁ before d t (omega (arith, Steps-baton steps)))

-- However the turns fall and whatever the user types, the drawing server's thread never reaches its
-- end, so that main's join of it does not return; and once the client has set the flag by an exit,
-- the thread never goes on again, since nobody wakes it.
pub server_never_closes :
    {d : Disk} {s : System} (garbage : ℕ → ℕ) (messages : List Bytes)
    → Steps d (main garbage messages) s
    → (s.server ≡ serving) × (s.memory.finished ≡ true → turn d server_thread s ≡ none)
unfolding main new_shared_memory
server_never_closes {d} {s} garbage messages steps =
    let quiet = Steps-IsQuiet steps (omega arith) (refl, inl refl) in (quiet.0, asleep s quiet d)

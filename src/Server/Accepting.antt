-- ===== src/Server/Accepting.antt =====
-- The accept loop of run in the mode of threads: what every client is sent, in any order of events.
use distributed_ascii_server.Prelude.{
  ℕ, ◌≡◌, ◌≢◌, refl, sym, ap, ◌∙◌, subst, false, Option, none, some, List, [], ◌∷◌, All,
}
use distributed_ascii_server.Prelude.Int.{ℤ, pos, negsuc}
use distributed_ascii_server.FileSystem.Disk.{Disk}
use distributed_ascii_server.Server.Task.{read_request}
use distributed_ascii_server.Server.Run.{
  Stage, reading, Client, Process, running, terminated, Event, connection, turn, turn_at, turned,
  serve_step, serve,
}
use distributed_ascii_server.Sockets.Net.{Net}
use distributed_ascii_server.Sockets.VSocket.{VSocket, wait_for_connection}
use distributed_ascii_server.Sockets.Stream.{accept_connection}
use distributed_ascii_server.Server.Streams.{Connection, Streams, Served}
use distributed_ascii_server.Server.Frames.{fd}
use distributed_ascii_server.Server.Serving.{
  Apart, Known, Held, Frame, Held-Frame, Kept, turn_at-Kept,
}

module _ {U : Type 0} (net : Net U) (laws : Streams net) (d : Disk) where
  open laws use {observe, accept_new, accept_frame}

  Known-ne :
      (u : U) (n : ℕ) (id : ℤ) (stage : Stage) (others : List Client)
      → (observe u (pos n)).opened ≡ false
      → Known net laws d u id stage others
      → id ≢ pos n
  Known-ne u n (negsuc m) stage others shut known e = cc
  Known-ne u n (pos m) stage others shut known e =
      cc (sym shut ∙ ap (λ id. (observe u id).opened) (sym e) ∙ known.0.0)

  -- A descriptor that is shut is no client's.
  Apart-shut :
      (u : U) (n : ℕ) (clients : List Client)
      → (observe u (pos n)).opened ≡ false
      → Held net laws d u clients
      → Apart net laws d (pos n) clients
  Apart-shut u n [] shut held = tt
  Apart-shut u n (c ∷ clients) shut held =
      (Known-ne u n (fd c) c.stage clients shut held.0, Apart-shut u n clients shut held.1)

  abbrev IsHeld : Process U → Type 0
  IsHeld (running clients u) = Held net laws d u clients
  IsHeld terminated = Unit

  abbrev newcomer : VSocket → ℤ → Client
  newcomer memory id = record { socket = record memory { id_socket = id }; stage = reading [] }

  accept-Held :
      (memory : VSocket) (server : ℤ) (clients : List Client) (u : U) (id : ℤ)
      → (net.accept u server).0 ≡ id
      → Held net laws d u clients
      → Held net laws d (net.accept u server).1 (newcomer memory id ∷ clients)
  unfolding read_request
  accept-Held memory server clients u (pos n) got held =
      let (shut, sent, now) = accept_new u server n got in
      let apart = Apart-shut u n clients shut held in
      (
        (
          (
            ap Connection.opened now,
            (
              ap (λ c. read_request c.incoming []) now ∙ sym (ap (λ c. read_request c.sent []) now),
              ap Connection.outgoing now,
            ),
          ),
          apart,
        ),
        Held-Frame net laws d u (net.accept u server).1 (pos n) clients
            (subst (Frame net laws d u (net.accept u server).1) got (accept_frame u server)) apart
            held,
      )
  accept-Held memory server clients u (negsuc n) got held = (
    tt,
    Held-Frame net laws d u (net.accept u server).1 (negsuc n) clients
        (subst (Frame net laws d u (net.accept u server).1) got (accept_frame u server)) tt held,
  )

  turned-IsHeld :
      (u : U) (clients : List Client) (out : Option (List Client × U))
      → Kept net laws d u clients out
      → IsHeld (turned net d out)
  turned-IsHeld u clients none kept' = tt
  turned-IsHeld u clients (some (clients', u')) kept' = kept'.0

  serve_step-IsHeld :
      (server memory : VSocket) (event : Event) (process : Process U)
      → IsHeld process
      → IsHeld (serve_step net d server memory event process)
  unfolding serve_step accept_connection wait_for_connection
  serve_step-IsHeld server memory event terminated held = tt
  serve_step-IsHeld server memory connection (running clients u) held =
      accept-Held memory server.id_socket clients u (net.accept u server.id_socket).0 refl held
  serve_step-IsHeld server memory (turn i) (running clients u) held =
      turned-IsHeld u clients (turn_at net d i clients u) (turn_at-Kept net laws d i clients u held)

  serve-IsHeld :
      (server memory : VSocket) (events : List Event) (process : Process U)
      → IsHeld process
      → IsHeld (serve net d server memory events process)
  unfolding serve
  serve-IsHeld server memory [] process held = held
  serve-IsHeld server memory (event ∷ events) process held =
      serve-IsHeld server memory events (serve_step net d server memory event process)
        (serve_step-IsHeld server memory event process held)

  -- A client whose connection has a descriptor has been sent the beginning of its reply.
  abbrev pub IsClientServed : U → ℤ → Stage → Type 0
  IsClientServed u (pos n) stage = Served d (observe u (pos n)) stage
  IsClientServed u (negsuc n) stage = Unit

  Held-IsClientServed :
      (u : U) (clients : List Client)
      → Held net laws d u clients
      → All (λ c. IsClientServed u (fd c) c.stage) clients
  Held-IsClientServed u [] held = tt
  Held-IsClientServed u (c ∷ clients) held =
      (one (fd c) held.0, Held-IsClientServed u clients held.1)
    where
      one : (id : ℤ) → Known net laws d u id c.stage clients → IsClientServed u id c.stage
      one (pos n) known = known.0.1
      one (negsuc n) known = tt

  -- Connections and turns of the threads in any order: while the process runs, every client on a
  -- descriptor has been sent a beginning of what `task` answers to that client's own request, and
  -- its thread has the rest to write; while its request is read, or where its thread follows a chain
  -- of blocks that closes on itself, nothing.
  pub serve_clients :
      (server memory : VSocket) (events : List Event) (u u' : U) (clients : List Client)
      → serve net d server memory events (running [] u) ≡ running clients u'
      → All (λ c. IsClientServed u' (fd c) c.stage) clients
  serve_clients server memory events u u' clients ran =
      Held-IsClientServed u' clients
        (subst IsHeld ran (serve-IsHeld server memory events (running [] u) tt))

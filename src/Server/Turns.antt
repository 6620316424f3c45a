-- ===== src/Server/Turns.antt =====
-- One turn of a client's thread: it keeps what is known of its own client.
use distributed_ascii_server.Prelude.{
  ℕ, suc, ◌≤◌, ◌≡◌, refl, sym, ap, ◌∙◌, true, false, List, [], ◌∷◌, ◌++◌, take_all, length,
  append_assoc, arith, Bool-cases, inl, inr,
}
use distributed_ascii_server.Prelude.Int.{ℤ, is_at_most_zero_int}
use distributed_ascii_server.Text.{Bytes, Run, done, out_of_range, fault, no_fuel, contains}
use distributed_ascii_server.FileSystem.Disk.{Disk}
use distributed_ascii_server.Server.Http.{crlf}
use distributed_ascii_server.Server.Task.{bufsize, read_request, task}
use distributed_ascii_server.Server.Sending.{concat}
use distributed_ascii_server.Server.Run.{
  Stage, reading, writing, endless, Turned, goes_on, finished, fails, reply, answered, task_turn,
}
use distributed_ascii_server.Sockets.Net.{Net}
use distributed_ascii_server.Sockets.VSocket.{VSocket, close_socket}
use distributed_ascii_server.Sockets.Stream.{read, write}
use distributed_ascii_server.Server.Streams.{Connection, Streams, Served, task-reply}

module _ (c : ℕ) (part : Bytes) (rest : List Bytes) (before : Bytes) where
  pub stops :
      contains (crlf ++ crlf) (before ++ (c ∷ part)) ≡ true
      → read_request ((c ∷ part) ∷ rest) before ≡ before ++ (c ∷ part)
  unfolding read_request
  stops e = rw e refl

  pub goes :
      contains (crlf ++ crlf) (before ++ (c ∷ part)) ≡ false
      → read_request ((c ∷ part) ∷ rest) before ≡ read_request rest (before ++ (c ∷ part))
  unfolding read_request
  goes e = rw e refl

module _ {U : Type 0} (net : Net U) (laws : Streams net) (d : Disk) where
  open laws use {
    observe, accept_new, accept_frame, read_end, read_next, read_frame, write_sends, write_frame,
    close_frame,
  }

  -- What is known of the thread on an open descriptor.
  abbrev pub IsServed : U → ℤ → Stage → Type 0
  IsServed u id stage = ((observe u id).opened ≡ true) × Served d (observe u id) stage

  -- The outcome of one turn, for the client's own descriptor.
  abbrev pub Progress : ℤ → Turned U → Type 0
  Progress id (goes_on client u) = (client.socket.id_socket ≡ id) × IsServed u id client.stage
  Progress id (finished u) = Unit
  Progress id fails = Unit

  answered-Progress :
      (s : VSocket) (http_request : Bytes) (u : U)
      → (observe u s.id_socket).opened ≡ true
      → http_request ≡ read_request (observe u s.id_socket).sent []
      → (observe u s.id_socket).outgoing ≡ []
      → (ran : Run (List Bytes)) → reply d http_request ≡ ran
      → Progress s.id_socket (answered net d s ran u)
  answered-Progress s http_request u open' all' nothing (done chunks) ran = (
    refl,
    (
      open',
      (
        chunks,
        task-reply d (observe u s.id_socket).sent ∙ ap (reply d) (sym all') ∙ ran,
        ap (λ t. t ++ concat chunks) nothing,
      ),
    ),
  )
  answered-Progress s http_request u open' all' nothing out_of_range ran = tt
  answered-Progress s http_request u open' all' nothing fault ran = tt
  answered-Progress s http_request u open' all' nothing no_fuel ran = (
    refl,
    (open', (task-reply d (observe u s.id_socket).sent ∙ ap (reply d) (sym all') ∙ ran, nothing)),
  )

  pub some_bytes : (n : ℕ) → suc n ≤ bufsize → is_at_most_zero_int (suc n) ≡ false
  some_bytes n h = ground arith

  module _ (s : VSocket) (http_request : Bytes) (u : U) where
    abbrev id : ℤ
    id = s.id_socket

    abbrev after : U
    after = (net.read u id bufsize).1

    read-Progress :
        (incoming : List Bytes)
        → (observe u id).incoming ≡ incoming
        → IsServed u id (reading http_request)
        → Progress id (task_turn net d s (reading http_request) u)
    unfolding task_turn read read_request
    read-Progress [] none_left (open', (whole, nothing)) =
        let (result, same) = read_end u id open' none_left in
        rw result (
          answered-Progress s http_request after (ap Connection.opened same ∙ open')
            (sym (ap (λ r. read_request r http_request) none_left)
              ∙ whole
              ∙ ap (λ c. read_request c.sent []) (sym same))
            (ap Connection.outgoing same ∙ nothing) (reply d http_request) refl)
    read-Progress ([] ∷ rest) left (open', (whole, nothing)) =
        let (result, fits, same) = read_next u id [] rest open' left in
        rw result (
          answered-Progress s http_request after (ap Connection.opened same ∙ open')
            (sym (ap (λ r. read_request r http_request) left)
              ∙ whole
              ∙ ap (λ c. read_request c.sent []) (sym same))
            (ap Connection.outgoing same ∙ nothing) (reply d http_request) refl)
    read-Progress ((c ∷ part) ∷ rest) left (open', (whole, nothing)) =
        let (result, fits, same) = read_next u id (c ∷ part) rest open' left in
        let so_far = http_request ++ (c ∷ part) in
        let now = ap (λ r. read_request r http_request) (sym left) ∙ whole in
        let sent' = ap (λ o. read_request o.sent []) (sym same) in
        elim (Bool-cases (contains (crlf ++ crlf) so_far)) [
          | inl e ↦
              rw
                (
                  result,
                  some_bytes (length part) fits,
                  take_all (length part) part (omega arith),
                  e,
                )
                (answered-Progress s so_far after (ap Connection.opened same ∙ open')
                  (sym (stops c part rest http_request e) ∙ now ∙ sent')
                  (ap Connection.outgoing same ∙ nothing) (reply d so_far) refl)
          | inr e ↦
              rw
                (
                  result,
                  some_bytes (length part) fits,
                  take_all (length part) part (omega arith),
                  e,
                )
                (
                  refl,
                  (
                    ap Connection.opened same ∙ open',
                    (
                      ap (λ o. read_request o.incoming so_far) same
                          ∙ sym (goes c part rest http_request e)
                          ∙ now
                          ∙ sent',
                      ap Connection.outgoing same ∙ nothing,
                    ),
                  ),
                )
        ]

  write-Progress :
      (s : VSocket) (chunk : Bytes) (left : List Bytes) (u : U)
      → (observe u s.id_socket).opened ≡ true
      → (chunks : List Bytes) → task d (observe u s.id_socket).sent ≡ done chunks
      → (observe u s.id_socket).outgoing ++ concat (chunk ∷ left) ≡ concat chunks
      → Progress s.id_socket (task_turn net d s (writing (chunk ∷ left)) u)
  unfolding task_turn write
  write-Progress s chunk left u open' chunks ran so_far =
      let same = write_sends u s.id_socket chunk open' in
      (
        refl,
        (
          ap Connection.opened same ∙ open',
          (
            chunks,
            ap (λ o. task d o.sent) same ∙ ran,
            ap (λ o. o.outgoing ++ concat left) same
                ∙ append_assoc (observe u s.id_socket).outgoing chunk (concat left)
                ∙ so_far,
          ),
        ),
      )

  closed : (s : VSocket) (u : U) → Progress s.id_socket (task_turn net d s (writing []) u)
  unfolding task_turn close_socket
  closed s u = tt

  still :
      (s : VSocket) (u : U)
      → IsServed u s.id_socket endless
      → Progress s.id_socket (task_turn net d s endless u)
  unfolding task_turn
  still s u known = (refl, known)

  -- A turn keeps what is known of its own client.
  pub task_turn-Progress :
      (s : VSocket) (stage : Stage) (u : U)
      → IsServed u s.id_socket stage
      → Progress s.id_socket (task_turn net d s stage u)
  task_turn-Progress s (reading http_request) u known =
      read-Progress s http_request u (observe u s.id_socket).incoming refl known
  task_turn-Progress s (writing (chunk ∷ left)) u (open', (chunks, ran, so_far)) =
      write-Progress s chunk left u open' chunks ran so_far
  task_turn-Progress s (writing []) u known = closed s u
  task_turn-Progress s endless u known = still s u known

-- ===== src/Server/Ending.antt =====
-- task over the system's sockets, from its first Read to its Close: it ends, and does what `task` says.
use distributed_ascii_server.Prelude.{
  ℕ, suc, ◌≡◌, refl, sym, ap, ◌∙◌, true, false, List, [], ◌∷◌, ◌++◌, take_all, length, append_assoc,
  append-nil, arith, Bool-cases, inl, inr,
}
use distributed_ascii_server.Prelude.Int.{ℤ}
use distributed_ascii_server.Text.{Bytes, done, contains}
use distributed_ascii_server.FileSystem.Disk.{Disk}
use distributed_ascii_server.Server.Http.{crlf}
use distributed_ascii_server.Server.Task.{bufsize, read_request, task}
use distributed_ascii_server.Server.Sending.{concat}
use distributed_ascii_server.Server.Run.{
  Stage, reading, writing, goes_on, finished, reply, task_turn,
}
use distributed_ascii_server.Sockets.Net.{Net}
use distributed_ascii_server.Sockets.VSocket.{VSocket, close_socket}
use distributed_ascii_server.Sockets.Stream.{read, write}
use distributed_ascii_server.Server.Streams.{Connection, Streams, task-reply}
use distributed_ascii_server.Server.Run.{run_task, resumed}
use distributed_ascii_server.Server.Turns.{stops, goes, some_bytes}

module _ {U : Type 0} (net : Net U) (laws : Streams net) (d : Disk) (s : VSocket) where
  open laws use {observe, read_end, read_next, write_sends, close_shuts}

  abbrev id : ℤ
  id = s.id_socket

  -- From this stage the thread ends, with these bytes sent and the connection closed.
  abbrev Ends : Stage → U → Bytes → Type 0
  Ends stage u sent' =
      (fuel : ℕ) × (u' : U) × (run_task net d fuel s stage u ≡ finished u')
      × ((observe u' id).outgoing ≡ sent')
      × ((observe u' id).opened ≡ false)

  write-Ends :
      (chunks : List Bytes) (u : U)
      → (observe u id).opened ≡ true
      → Ends (writing chunks) u ((observe u id).outgoing ++ concat chunks)
  unfolding run_task task_turn write close_socket
  write-Ends [] u open' =
      let shut = close_shuts u id in
      (
        1,
        net.close u id,
        refl,
        ap Connection.outgoing shut ∙ sym (append-nil (observe u id).outgoing),
        ap Connection.opened shut,
      )
  write-Ends (chunk ∷ chunks) u open' =
      let same = write_sends u id chunk open' in
      let (fuel, u', ran, sent', shut) =
        write-Ends chunks (net.write u id chunk).1 (ap Connection.opened same ∙ open') in
      (
        suc fuel,
        u',
        ran,
        sent'
            ∙ ap (λ o. o.outgoing ++ concat chunks) same
            ∙ append_assoc (observe u id).outgoing chunk (concat chunks),
        shut,
      )

  -- One turn, and then the rest.
  turn_Ends :
      (stage stage' : Stage) (u u' : U) (sent' : Bytes)
      → task_turn net d s stage u ≡ goes_on (record { socket = s; stage = stage' }) u'
      → Ends stage' u' sent'
      → Ends stage u sent'
  unfolding run_task
  turn_Ends stage stage' u u' sent' took (fuel, after, ran, all', shut) =
      (suc fuel, after, ap (resumed net d (run_task net d fuel)) took ∙ ran, all', shut)

  -- A Read after which the request is answered.
  last_read :
      (http_request : Bytes) (u u' : U) (chunks : List Bytes)
      → (now : Connection) → observe u' id ≡ now
      → now.opened ≡ true
      → now.outgoing ≡ []
      → task_turn net d s (reading http_request) u
        ≡ goes_on (record { socket = s; stage = writing chunks }) u'
      → Ends (reading http_request) u (concat chunks)
  last_read http_request u u' chunks now same open' nothing took =
      turn_Ends (reading http_request) (writing chunks) u u' (concat chunks) took (
        let (fuel, after, ran, all', shut) =
          write-Ends chunks u' (ap Connection.opened same ∙ open') in
        (
          fuel,
          after,
          ran,
          all' ∙ ap (λ t. t ++ concat chunks) (ap Connection.outgoing same ∙ nothing),
          shut,
        ))

  read-Ends :
      (incoming : List Bytes) (http_request : Bytes) (u : U) (chunks : List Bytes)
      → (observe u id).incoming ≡ incoming
      → (observe u id).opened ≡ true
      → (observe u id).outgoing ≡ []
      → reply d (read_request incoming http_request) ≡ done chunks
      → Ends (reading http_request) u (concat chunks)
  unfolding task_turn read read_request
  read-Ends [] http_request u chunks left open' nothing ran =
      let (result, same) = read_end u id open' left in
      last_read http_request u (net.read u id bufsize).1 chunks (observe u id) same open' nothing
        (rw (result, ran) refl)
  read-Ends ([] ∷ rest) http_request u chunks left open' nothing ran =
      let (result, fits, same) = read_next u id [] rest open' left in
      last_read http_request u (net.read u id bufsize).1 chunks
        (record (observe u id) { incoming = rest }) same open' nothing (rw (result, ran) refl)
  read-Ends ((c ∷ part) ∷ rest) http_request u chunks left open' nothing ran =
      let (result, fits, same) = read_next u id (c ∷ part) rest open' left in
      let so_far = http_request ++ (c ∷ part) in
      let whole = take_all (length part) part (omega arith) in
      let more = some_bytes net laws d (length part) fits in
      elim (Bool-cases (contains (crlf ++ crlf) so_far)) [
        | inl e ↦
            last_read http_request u (net.read u id bufsize).1 chunks
              (record (observe u id) { incoming = rest }) same open' nothing
              (rw
                (
                  result,
                  more,
                  whole,
                  e,
                  ap (reply d) (sym (stops c part rest http_request e)) ∙ ran,
                )
                refl)
        | inr e ↦
            turn_Ends (reading http_request) (reading so_far) u (net.read u id bufsize).1
              (concat chunks) (rw (result, more, whole, e) refl)
              (read-Ends rest so_far (net.read u id bufsize).1 chunks (ap Connection.incoming same)
                (ap Connection.opened same ∙ open') (ap Connection.outgoing same ∙ nothing)
                (ap (reply d) (sym (goes c part rest http_request e)) ∙ ran))
      ]

  -- Where `task` gives a reply to what a new client sends, the task on the client's socket comes to
  -- its end: it has then sent that reply, byte for byte, and the connection is closed.
  pub run_task_refines :
      (u : U) (chunks : List Bytes)
      → (observe u s.id_socket).opened ≡ true
      → (observe u s.id_socket).incoming ≡ (observe u s.id_socket).sent
      → (observe u s.id_socket).outgoing ≡ []
      → task d (observe u s.id_socket).sent ≡ done chunks
      → (fuel : ℕ) × (u' : U) × (run_task net d fuel s (reading []) u ≡ finished u')
        × ((observe u' s.id_socket).outgoing ≡ concat chunks)
        × ((observe u' s.id_socket).opened ≡ false)
  run_task_refines u chunks open' fresh nothing ran =
      read-Ends (observe u id).sent [] u chunks fresh open' nothing
        (sym (task-reply d (observe u id).sent) ∙ ran)

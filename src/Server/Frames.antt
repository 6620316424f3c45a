-- ===== src/Server/Frames.antt =====
-- One turn of a client's thread: it leaves the connections of the other clients alone.
use distributed_ascii_server.Prelude.{
  ℕ, ◌≡◌, ◌≢◌, refl, List, [], ◌∷◌, ◌++◌, take, Bool-cases, inl, inr,
}
use distributed_ascii_server.Prelude.Int.{ℤ, is_at_most_zero_int, to_size}
use distributed_ascii_server.Text.{Bytes, Run, done, out_of_range, fault, no_fuel, contains}
use distributed_ascii_server.FileSystem.Disk.{Disk}
use distributed_ascii_server.Server.Http.{crlf}
use distributed_ascii_server.Server.Task.{bufsize}
use distributed_ascii_server.Server.Run.{
  Stage, reading, writing, endless, Client, Turned, goes_on, finished, fails, reply, answered,
  after_read, task_turn,
}
use distributed_ascii_server.Sockets.Net.{Net, returned}
use distributed_ascii_server.Sockets.VSocket.{VSocket, close_socket}
use distributed_ascii_server.Sockets.Stream.{read, write}
use distributed_ascii_server.Server.Streams.{Streams}

abbrev pub fd : Client → ℤ
fd client = client.socket.id_socket

module _ {U : Type 0} (net : Net U) (laws : Streams net) (d : Disk) where
  open laws use {
    observe, accept_new, accept_frame, read_end, read_next, read_frame, write_sends, write_frame,
    close_frame,
  }

  -- A turn leaves the connections of other descriptors alone, and its own client's descriptor.
  abbrev pub IsFramed : U → ℤ → Turned U → Type 0
  IsFramed u id (goes_on client u') =
      (fd client ≡ id) × ((other : ℤ) → other ≢ id → observe u' other ≡ observe u other)
  IsFramed u id (finished u') = (other : ℤ) → other ≢ id → observe u' other ≡ observe u other
  IsFramed u id fails = Unit

  module _ (s : VSocket) (u u' : U) where
    abbrev Frame : Type 0
    Frame = (other : ℤ) → other ≢ s.id_socket → observe u' other ≡ observe u other

    answered-IsFramed :
        Frame → (ran : Run (List Bytes)) → IsFramed u s.id_socket (answered net d s ran u')
    answered-IsFramed frame (done chunks) = (refl, frame)
    answered-IsFramed frame out_of_range = tt
    answered-IsFramed frame fault = tt
    answered-IsFramed frame no_fuel = (refl, frame)

    after_read-IsFramed :
        Frame
        → (http_request : Bytes) (bytes_read : ℕ) (buffer : Bytes)
        → IsFramed u s.id_socket
            (after_read net d s http_request (returned (bytes_read, buffer)) u')
    after_read-IsFramed frame http_request bytes_read buffer =
        elim (Bool-cases (is_at_most_zero_int bytes_read)) [
          | inl e ↦ rw e (answered-IsFramed frame (reply d http_request))
          | inr e ↦
              let so_far = http_request ++ take bytes_read buffer in
              elim (Bool-cases (contains (crlf ++ crlf) so_far)) [
                | inl e' ↦ rw (e, e') (answered-IsFramed frame (reply d so_far))
                | inr e' ↦ rw (e, e') (refl, frame)
              ]
        ]

  pub task_turn-IsFramed :
      (s : VSocket) (stage : Stage) (u : U) → IsFramed u s.id_socket (task_turn net d s stage u)
  unfolding task_turn read write close_socket
  task_turn-IsFramed s (reading http_request) u =
      after_read-IsFramed s u _ (λ other away. read_frame u s.id_socket other away) http_request
        (to_size (net.read u s.id_socket bufsize).0.0) (net.read u s.id_socket bufsize).0.1
  task_turn-IsFramed s (writing (chunk ∷ left)) u =
      (refl, λ other away. write_frame u s.id_socket other chunk away)
  task_turn-IsFramed s (writing []) u = λ other away. close_frame u s.id_socket other away
  task_turn-IsFramed s endless u = (refl, λ other away. refl)

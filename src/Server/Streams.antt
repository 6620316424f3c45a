-- ===== src/Server/Streams.antt =====
-- What the server's threads rely on of the system's stream sockets, and what a client has been sent.
use distributed_ascii_server.Prelude.{
  ℕ, ◌≤◌, ◌≡◌, ◌≢◌, refl, Bool, true, false, List, [], ◌∷◌, ◌++◌, length,
}
use distributed_ascii_server.Prelude.Int.{ℤ, pos}
use distributed_ascii_server.Text.{Bytes, done, no_fuel}
use distributed_ascii_server.FileSystem.Disk.{Disk}
use distributed_ascii_server.Server.Task.{bufsize, read_request, task}
use distributed_ascii_server.Server.Sending.{concat}
use distributed_ascii_server.Server.Run.{Stage, reading, writing, endless, reply}
use distributed_ascii_server.Sockets.Net.{Net}

-- A descriptor as its connection shows it: what its peer sends in all, as the Reads deliver it,
-- what of that has not been read, and what has been written.
pub record Connection : Type 0 where
  pub opened : Bool
  pub sent : List Bytes
  pub incoming : List Bytes
  pub outgoing : Bytes

-- What accept, read, write and close document on stream sockets whose peers stay. A descriptor that
-- accept returns was not open. A call on one descriptor leaves the others alone. A read delivers
-- the next part of what the peer sends, or 0 bytes at the end; a write takes the whole text; a close
-- shuts the descriptor and does not take back what was written.
pub record Streams {U : Type 0} (net : Net U) : Type 0 where
  pub observe : U → ℤ → Connection
  pub accept_new :
      (u : U) (server : ℤ) (n : ℕ)
      → (net.accept u server).0 ≡ pos n
      → ((observe u (pos n)).opened ≡ false)
        × (sent : List Bytes) × (observe (net.accept u server).1 (pos n)
            ≡ record { opened = true; sent = sent; incoming = sent; outgoing = [] })
  pub accept_frame :
      (u : U) (server d : ℤ)
      → d ≢ (net.accept u server).0
      → observe (net.accept u server).1 d ≡ observe u d
  pub read_end :
      (u : U) (id : ℤ)
      → (observe u id).opened ≡ true
      → (observe u id).incoming ≡ []
      → ((net.read u id bufsize).0 ≡ (pos 0, []))
        × (observe (net.read u id bufsize).1 id ≡ observe u id)
  pub read_next :
      (u : U) (id : ℤ) (part : Bytes) (rest : List Bytes)
      → (observe u id).opened ≡ true
      → (observe u id).incoming ≡ part ∷ rest
      → ((net.read u id bufsize).0 ≡ (pos (length part), part))
        × (length part ≤ bufsize)
        × (observe (net.read u id bufsize).1 id ≡ record (observe u id) { incoming = rest })
  pub read_frame : (u : U) (id d : ℤ) → d ≢ id → observe (net.read u id bufsize).1 d ≡ observe u d
  pub write_sends :
      (u : U) (id : ℤ) (text : Bytes)
      → (observe u id).opened ≡ true
      → observe (net.write u id text).1 id
        ≡ record (observe u id) { outgoing = (observe u id).outgoing ++ text }
  pub write_frame :
      (u : U) (id d : ℤ) (text : Bytes) → d ≢ id → observe (net.write u id text).1 d ≡ observe u d
  pub close_shuts :
      (u : U) (id : ℤ) → observe (net.close u id) id ≡ record (observe u id) { opened = false }
  pub close_frame : (u : U) (id d : ℤ) → d ≢ id → observe (net.close u id) d ≡ observe u d

-- What a client has been sent, by where its thread stands: nothing, while its request is read; then
-- the beginning of the reply that `task` gives to what it sends, whose rest is still to be written;
-- and nothing where `task` does not end.
abbrev pub Served : Disk → Connection → Stage → Type 0
Served d c (reading http_request) =
    (read_request c.incoming http_request ≡ read_request c.sent []) × (c.outgoing ≡ [])
Served d c (writing left) =
    (chunks : List Bytes) × (task d c.sent ≡ done chunks)
    × (c.outgoing ++ concat left ≡ concat chunks)
Served d c endless = (task d c.sent ≡ no_fuel) × (c.outgoing ≡ [])

pub task-reply : (d : Disk) (reads : List Bytes) → task d reads ≡ reply d (read_request reads [])
unfolding task reply
task-reply d reads = refl

-- ===== src/Server/Whole.antt =====
-- From the files of the host to a client's socket: MountSystem, the file system, task and the socket
-- classes together.
use distributed_ascii_server.Prelude.{
  ℕ, ◌^◌, ◌≤◌, ◌<◌, ◌≡◌, ◌≢◌, refl, ap, ◌∙◌, true, false, Option, none, some, [], ◌∷◌, ◌++◌, All,
  length, length-append, arith, Bool-cases, inl, inr,
}
use distributed_ascii_server.Text.{Bytes, Run, bytes, done, out_of_range, fault, no_fuel, contains}
use distributed_ascii_server.Text.Laws.{Free}
use distributed_ascii_server.Text.Maps.{lookup}
use distributed_ascii_server.FileSystem.Disk.{Disk}
use distributed_ascii_server.FileSystem.Directory.{exist_ascii}
use distributed_ascii_server.FileSystem.Drawing.{drawing}
use distributed_ascii_server.FileSystem.Mount.{mount_server}
use distributed_ascii_server.FileSystem.Catalogue.Reading.{served}
use distributed_ascii_server.FileSystem.Catalogue.Mounting.{
  IsReady, objetos, server_names, listed, blocks_all, mount_server_refines,
}
use distributed_ascii_server.Server.Http.{http_ok}
use distributed_ascii_server.Server.Task.{read_request}
use distributed_ascii_server.Server.EndToEnd.{get_line, task_get}
use distributed_ascii_server.Server.Run.{reading, finished, run_task}
use distributed_ascii_server.Server.Streams.{Streams}
use distributed_ascii_server.Server.Ending.{run_task_refines}
use distributed_ascii_server.Sockets.Net.{Net}
use distributed_ascii_server.Sockets.VSocket.{VSocket}

-- What is served is found, and is what drawing collects.
drawn-served :
    (d : Disk) (name art : Bytes) (out : Run Bytes)
    → drawing d name ≡ out
    → exist_ascii d name ≡ true
    → served d name ≡ done (some art)
    → drawing d name ≡ done art
drawn-served d name art (done text) drawn there it = drawn ∙ cc (rw (there, drawn) at it)
drawn-served d name art out_of_range drawn there it = cc (rw (there, drawn) at it)
drawn-served d name art fault drawn there it = cc (rw (there, drawn) at it)
drawn-served d name art no_fuel drawn there it = cc (rw (there, drawn) at it)

served_found :
    (d : Disk) (name art : Bytes)
    → served d name ≡ done (some art)
    → (exist_ascii d name ≡ true) × (drawing d name ≡ done art)
served_found d name art it = elim (Bool-cases (exist_ascii d name)) [
  | inl there ↦ (there, drawn-served d name art (drawing d name) refl there it)
  | inr missing ↦ cc (rw missing at it)
]

extended_ne : (name : Bytes) → name ++ bytes ".txt" ≢ []
extended_ne [] e = cc
extended_ne (c ∷ name) e = cc

-- The server starts with no disk and with the files of its six drawings in place, which have no NUL
-- and take at most 253 blocks. A client whose connection has come in, and who sends a GET of one of
-- these drawings by its name without .txt, gets the HTTP reply with the drawing, whole, and the
-- connection is closed: the disk is made, the task on the socket ends, what was written is that
-- reply, and the descriptor is shut. The name has at most 11 bytes, none of them a NUL, a space or a
-- slash; the request has no NUL, and nothing in it asks for the list of objects; the drawing is
-- shorter than 2 ^ 63 and, with the end mark behind it, does not hold the mark of an error.
pub server_get :
    {U : Type 0} (net : Net U) (laws : Streams net) (s : VSocket) (u : U)
    (files : Bytes → Option Bytes) (texts : Bytes → Bytes) (name rest art : Bytes)
    → All (IsReady files objetos texts) server_names
    → blocks_all texts server_names ≤ 253
    → lookup (name ++ bytes ".txt") (listed texts server_names) ≡ some art
    → (laws.observe u s.id_socket).opened ≡ true
    → (laws.observe u s.id_socket).incoming ≡ (laws.observe u s.id_socket).sent
    → (laws.observe u s.id_socket).outgoing ≡ []
    → read_request (laws.observe u s.id_socket).sent [] ≡ get_line name rest
    → Free 0 (get_line name rest)
    → Free b' ' name
    → Free b'/' name
    → Free 0 name
    → length name ≤ 11
    → length art < 2 ^ 63
    → contains (bytes "GET /objects") (get_line name rest) ≡ false
    → contains (bytes "BEGIN/ERROR/") (art ++ bytes "/END") ≡ false
    → (d : Disk) × (mount_server files none ≡ done (some d))
      × (fuel : ℕ) × (u' : U) × (run_task net d fuel s (reading []) u ≡ finished u')
      × ((laws.observe u' s.id_socket).outgoing ≡ http_ok art)
      × ((laws.observe u' s.id_socket).opened ≡ false)
server_get net laws s u files texts name rest art ready room listed_there open' fresh nothing
      arrived clean plain slashless clean_name short small other safe =
    let (d, mounted, serves, again) =
      mount_server_refines files texts (name ++ bytes ".txt") ready room (extended_ne name)
        (omega (arith, length-append {0} name (bytes ".txt"))) in
    let (here, drawn) = served_found d (name ++ bytes ".txt") art (serves ∙ ap done listed_there) in
    let (chunks, ran, whole) =
      task_get d (laws.observe u s.id_socket).sent name rest art arrived clean plain slashless
        clean_name (omega arith) small other here drawn safe in
    let (fuel, u', ended, sent', shut) =
      run_task_refines net laws d s u chunks open' fresh nothing ran in
    (d, mounted, fuel, u', ended, sent' ∙ whole, shut)

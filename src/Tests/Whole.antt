-- ===== src/Tests/Whole.antt =====
-- The whole server on the small network: a GET of Goku.
use distributed_ascii_server.Prelude.{
  ℕ, ◌≡◌, refl, All, true, false, some, none, List, [], ◌∷◌, ◌++◌, arith,
}
use distributed_ascii_server.Prelude.Int.{pos}
use distributed_ascii_server.Text.{done, Bytes, bytes, contains}
use distributed_ascii_server.FileSystem.Disk.{Disk}
use distributed_ascii_server.FileSystem.Mount.{mount_server}
use distributed_ascii_server.FileSystem.Catalogue.Mounting.{IsReady, objetos, server_names}
use distributed_ascii_server.Text.Maps.{lookup}
use distributed_ascii_server.Text.{eq_bytes}
use distributed_ascii_server.Server.Http.{http_ok, crlf}
use distributed_ascii_server.Server.Task.{read_request}
use distributed_ascii_server.Server.Run.{reading, finished, run_task}
use distributed_ascii_server.Server.Whole.{server_get}
use distributed_ascii_server.Sockets.VSocket.{VSocket}
use distributed_ascii_server.Tests.Network.{World, small_net, streams}

abbrev text : Bytes
text = bytes "(o_o)"

ready : All (IsReady (λ path. some text) objetos (λ n. text)) server_names
ready = ground arith

abbrev request : List Bytes
request = bytes "GET /get/Go" ∷ (bytes "ku HTTP/1.1" ++ crlf ++ crlf) ∷ []

abbrev client : VSocket
client = record { id_socket = pos 3; family = 2 }

abbrev world : World
world = record {
  table = λ d. record { opened = true; sent = request; incoming = request; outgoing = [] };
  next = 4;
  request = request;
  addresses = [];
  answering = λ a. false;
}

server_get_example :
    (d : Disk) × (mount_server (λ path. some text) none ≡ done (some d))
    × (fuel : ℕ) × (u' : World) × (run_task small_net d fuel client (reading []) world
        ≡ finished u')
    × ((streams.observe u' (pos 3)).outgoing ≡ http_ok text)
    × ((streams.observe u' (pos 3)).opened ≡ false)
unfolding read_request contains lookup eq_bytes
server_get_example =
    server_get small_net streams client world (λ path. some text) (λ n. text) (bytes "Goku")
      (bytes "1.1" ++ crlf ++ crlf) text ready (omega arith) refl refl refl refl refl (omega arith)
      (omega arith) (omega arith) (omega arith) (omega arith) (omega arith) refl refl

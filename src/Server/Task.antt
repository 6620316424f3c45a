-- ===== src/Server/Task.antt =====
-- task and handleRequest of Server.cpp: what one connection does, from the bytes that arrive to the
-- bytes that are sent.
use distributed_ascii_server.Prelude.{
  ℕ, zero, suc, ◌+◌, ◌-◌, List, [], ◌∷◌, ◌++◌, ltb, if◌then◌else◌, length,
}
use distributed_ascii_server.Text.{Bytes, Run, done, no_fuel, ◌>>=◌, contains, substr, c_str}
use distributed_ascii_server.FileSystem.Disk.{Disk}
use distributed_ascii_server.Server.Protocol.{validate_request}
use distributed_ascii_server.Server.Http.{translate_http_to_ascii, translate_ascii_to_http, crlf}

-- BUFSIZE
abbrev pub bufsize : ℕ
bufsize = 256

-- while (true): append what each Read delivers, until an empty one or the end of the header. The
-- list holds what the Reads deliver, at most BUFSIZE bytes each; a Read after the last fails.
unfoldable pub read_request : List Bytes → Bytes → Bytes
read_request [] http_request = http_request
read_request ([] ∷ reads) http_request = http_request
read_request ((c ∷ buffer) ∷ reads) http_request =
    let so_far = http_request ++ (c ∷ buffer) in
    let rest = read_request reads so_far in if contains (crlf ++ crlf) so_far then so_far else rest

unfoldable pub handle_request : Disk → Bytes → Run Bytes
handle_request d request =
    validate_request d request >>= λ response. translate_ascii_to_http (c_str response)

-- while (sent < size): the texts that Write is given, each a C string.
unfoldable pub send_loop : ℕ → Bytes → ℕ → Run (List Bytes)
send_loop zero response sent = no_fuel
send_loop (suc fuel) response sent =
    let chunk_size =
      if ltb bufsize (length response - sent) then bufsize else length response - sent in
    let rest : Run (List Bytes) =
      (substr response sent chunk_size >>= λ chunk.
      send_loop fuel response (sent + chunk_size) >>= λ chunks. done (c_str chunk ∷ chunks)) in
    if ltb sent (length response) then rest else done []

unfoldable pub send_response : Bytes → Run (List Bytes)
send_response response = send_loop (suc (length response)) response 0

-- The whole of task: what is written to the client for what was read from it.
unfoldable pub task : Disk → List Bytes → Run (List Bytes)
task d reads = translate_http_to_ascii (c_str (read_request reads [])) >>= λ ascii_request.
    handle_request d (c_str ascii_request) >>= λ ascii_response. send_response ascii_response

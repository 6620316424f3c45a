-- ===== src/Tests/Server.antt =====
-- The server at work on a disk that holds one drawing.
use distributed_ascii_server.Prelude.{
  ◌≤◌, ◌<◌, ◌≡◌, refl, true, false, some, List, [], ◌∷◌, ◌++◌, arith, length, All,
}
use distributed_ascii_server.Text.{Bytes, bytes, done, contains, eq_bytes, c_str}
use distributed_ascii_server.FileSystem.Disk.{Disk, blank, fread}
use distributed_ascii_server.FileSystem.Directory.{exist_ascii, exist_file, write_file}
use distributed_ascii_server.FileSystem.Drawing.{drawing}
use distributed_ascii_server.FileSystem.Allocate.{IsShaped}
use distributed_ascii_server.FileSystem.WriteFile.{write_file-drawing}
use distributed_ascii_server.Server.Http.{translate_ascii_to_http, http_ok, crlf}
use distributed_ascii_server.Server.Protocol.{validate_request}
use distributed_ascii_server.Server.Task.{read_request, send_response, task, bufsize}
use distributed_ascii_server.Server.Replies.{ok_answer, translate_ok}
use distributed_ascii_server.Server.Answers.{Answered, validate_request-Answered}
use distributed_ascii_server.Server.Sending.{concat, send_response_whole}
use distributed_ascii_server.Server.EndToEnd.{get_line, task_get}

abbrev name : Bytes
name = bytes "Goku"

abbrev art : Bytes
art = bytes "(o_o)"

-- A new disk on which the drawing is written.
drawn :
    (d : Disk) × (write_file (bytes "Goku.txt") (some art) (some blank) ≡ done (true, some d))
    × (exist_ascii d (bytes "Goku.txt") ≡ true)
    × (drawing d (bytes "Goku.txt") ≡ done art)
    × IsShaped d 2 2
unfolding blank exist_file eq_bytes c_str fread
drawn =
    write_file-drawing blank 1 0 (bytes "Goku.txt") art
      (record { counter = refl; sized = refl; linked = λ i a b. absurd (omega arith) })
      (omega arith)
      (record { reachable = omega arith; taken = λ i h. absurd (omega arith); free = refl })
      (omega arith) (omega arith) (λ e. cc) (omega arith) (omega arith) refl

abbrev rest : Bytes
rest = bytes "1.1" ++ crlf ++ crlf

-- The request arrives in two pieces.
abbrev pieces : List Bytes
pieces = bytes "GET /get/Go" ∷ (bytes "ku HTTP/1.1" ++ crlf ++ crlf) ∷ []

arrived : read_request pieces [] ≡ get_line name rest
unfolding read_request contains
arrived = refl

no_list : contains (bytes "GET /objects") (get_line name rest) ≡ false
unfolding contains
no_list = refl

no_error : contains (bytes "BEGIN/ERROR/") (art ++ bytes "/END") ≡ false
unfolding contains
no_error = refl

task_get_example :
    (chunks : List Bytes) × (task drawn.0 pieces ≡ done chunks) × (concat chunks ≡ http_ok art)
task_get_example =
    task_get drawn.0 pieces name rest art arrived (omega arith) (omega arith) (omega arith)
      (omega arith) (omega arith) (omega arith) no_list drawn.2 drawn.3 no_error

validate_request-Answered_example : Answered (validate_request blank (bytes "BEGIN/GET/Goku/END"))
validate_request-Answered_example =
    validate_request-Answered blank (bytes "BEGIN/GET/Goku/END") (omega arith)

translate_ok_example : translate_ascii_to_http (ok_answer art) ≡ done (http_ok art)
translate_ok_example = translate_ok art (omega arith) no_error

send_response_whole_example :
    (chunks : List Bytes) × (send_response (bytes "HTTP/1.1 200 OK") ≡ done chunks)
    × (concat chunks ≡ bytes "HTTP/1.1 200 OK")
    × All (λ t. (length t ≤ bufsize) × (0 < length t)) chunks
send_response_whole_example = send_response_whole (bytes "HTTP/1.1 200 OK") (omega arith)

-- ===== src/Tests/AsciiServer.antt =====
-- The ASCII server at work on a disk that holds one drawing.
use distributed_ascii_server.Prelude.{◌≡◌, refl, true, some, List, ◌++◌, arith}
use distributed_ascii_server.Text.{Bytes, bytes, done, eq_bytes, c_str}
use distributed_ascii_server.FileSystem.Disk.{Disk, blank, fread}
use distributed_ascii_server.FileSystem.Directory.{exist_ascii, exist_file, write_file}
use distributed_ascii_server.FileSystem.Drawing.{drawing}
use distributed_ascii_server.FileSystem.Allocate.{IsShaped}
use distributed_ascii_server.FileSystem.WriteFile.{write_file-drawing}
use distributed_ascii_server.Server.Replies.{ok_answer}
use distributed_ascii_server.Server.Answers.{message}
use distributed_ascii_server.Server.Sending.{concat}
use distributed_ascii_server.AsciiServer.{handle_socket}
use distributed_ascii_server.AsciiServer.Laws.{titled, handle_socket_get}

abbrev name : Bytes
name = bytes "Goku.txt"

abbrev art : Bytes
art = bytes "(o_o)"

drawn :
    (d : Disk) × (write_file name (some art) (some blank) ≡ done (true, some d))
    × (exist_ascii d name ≡ true)
    × (drawing d name ≡ done art)
    × IsShaped d 2 2
unfolding blank exist_file eq_bytes c_str fread
drawn =
    write_file-drawing blank 1 0 name art
      (record { counter = refl; sized = refl; linked = λ i a b. absurd (omega arith) })
      (omega arith)
      (record { reachable = omega arith; taken = λ i h. absurd (omega arith); free = refl })
      (omega arith) (omega arith) (λ e. cc) (omega arith) (omega arith) refl

handle_socket_get_example :
    (chunks : List Bytes) × (handle_socket drawn.0 (message (bytes "GET/" ++ name)) ≡ done chunks)
    × (concat chunks ≡ ok_answer (titled name art))
handle_socket_get_example =
    handle_socket_get drawn.0 name art (omega arith) (omega arith) (omega arith) (omega arith)
      drawn.2 drawn.3

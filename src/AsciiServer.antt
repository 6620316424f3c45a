-- ===== src/AsciiServer.antt =====
-- ASCII_Server_Client_Project/TenedorASCIICliente: src/Server/ASCIIServer.cc over the same file
-- system as Server.cpp's, with getSystemInfo of its src/FileSystem/FileSystem.c.
pub mod Laws
use distributed_ascii_server.Prelude.{
  ℕ, zero, suc, ◌+◌, not, ◌&&◌, Bool, List, [], ◌∷◌, ◌++◌, ltb, ◌==◌, if◌then◌else◌, length,
}
use distributed_ascii_server.Text.{
  Bytes, bytes, Run, done, fault, ◌>>=◌, sub_size, eq_bytes, substr, npos, c_str,
}
use distributed_ascii_server.Text.Split.{split}
use distributed_ascii_server.FileSystem.Disk.{Disk, fread}
use distributed_ascii_server.FileSystem.Directory.{exist_ascii}
use distributed_ascii_server.FileSystem.Drawing.{drawing}
use distributed_ascii_server.Server.Protocol.{empty_message, bad_format, not_found, not_recognised}
use distributed_ascii_server.Server.Task.{send_response}

-- The loop of getSystemInfo from byte `i`: each name with a line break, up to an empty one. 16
-- entries start below byte 256, so 17 rounds are enough.
unfoldable pub system_info_loop : ℕ → Disk → ℕ → Bytes
system_info_loop zero d i = []
system_info_loop (suc fuel) d i =
    let rest = system_info_loop fuel d (i + 17) in
    let name = c_str (fread d i 16) in
    if ltb i 256 && not (length name == 0) then name ++ (10 ∷ rest) else []

unfoldable pub get_system_info : Disk → Bytes
get_system_info d = system_info_loop 17 d 0

-- The branch for GET; the name stands on the disk as it is sent.
unfoldable pub get_drawing : Disk → Bytes → Run Bytes
get_drawing d ascii =
    if exist_ascii d ascii
    then (drawing d ascii >>= λ ascii_art. done (
        bytes "BEGIN/OK/"
        ++ ((bytes "Este es el contenido del dibujo " ++ (ascii ++ (b':' ∷ 10 ∷ ascii_art)))
            ++ bytes "/END")))
    else done not_found

unfoldable pub answer_tokens : Disk → List Bytes → Run Bytes
answer_tokens d [] = done (bytes "BEGIN/ERROR/300/Mensaje mal formateado/END")
answer_tokens d (t ∷ []) =
    if eq_bytes t (bytes "OBJECTS")
    then done (bytes "BEGIN/OK/" ++ (get_system_info d ++ bytes "/END"))
    else done not_recognised
answer_tokens d (t ∷ ascii ∷ []) =
    if eq_bytes t (bytes "GET") then get_drawing d ascii else done not_recognised
answer_tokens d tokens = done not_recognised

unfoldable pub validate_ascii : Disk → Bytes → Run Bytes
validate_ascii d request =
    if length request == 0
    then done empty_message
    else substr request 0 6 >>= λ first.
        if not (eq_bytes first (bytes "BEGIN/"))
        then done bad_format
        else substr request (sub_size (length request) 4) npos >>= λ last.
            if not (eq_bytes last (bytes "/END"))
            then done bad_format
            else substr request 6 (sub_size (length request) 10) >>= λ content.
                split content >>= λ tokens. answer_tokens d tokens

-- handleRequest: one Read of at most BUFFER bytes into a buffer of zeros. A text of BUFFER bytes
-- with no NUL is read beyond the buffer, which stands here as a fault.
unfoldable pub handle_socket : Disk → Bytes → Run (List Bytes)
handle_socket d request =
    if ltb (length (c_str request)) 256
    then (validate_ascii d (c_str request) >>= λ response. send_response response)
    else fault

-- ===== src/Server/Protocol.antt =====
-- validateRequest of Server.cpp: the internal protocol over the drawings on the disk.
use distributed_ascii_server.Prelude.{not, ◌&&◌, List, [], ◌∷◌, ◌++◌, ◌==◌, if◌then◌else◌, length}
use distributed_ascii_server.Text.{Bytes, bytes, Run, done, ◌>>=◌, sub_size, eq_bytes, substr, npos}
use distributed_ascii_server.Text.Split.{split}
use distributed_ascii_server.FileSystem.Disk.{Disk}
use distributed_ascii_server.FileSystem.Directory.{exist_ascii}
use distributed_ascii_server.FileSystem.Drawing.{drawing}

abbrev pub ascii_list : Bytes
ascii_list =
    bytes "CocaCola.txt, Exitante.txt, Foca.txt, Gogeta.txt, Goku.txt, GoyoCat.txt, Personal.txt"

abbrev pub empty_message : Bytes
empty_message = bytes "BEGIN/ERROR/300/El mensaje está vacío o es inválido/END"

abbrev pub bad_format : Bytes
bad_format = bytes "BEGIN/ERROR/300/Formato de mensaje inválido/END"

abbrev pub not_found : Bytes
not_found = bytes "BEGIN/ERROR/201/El dibujo solicitado no fue encontrado/END"

abbrev pub not_recognised : Bytes
not_recognised = bytes "BEGIN/ERROR/300/Mensaje no reconocido por el protocolo/END"

-- A drawing by its name, without the extension.
unfoldable pub get_object : Disk → Bytes → Run Bytes
get_object d name =
    let ascii = name ++ bytes ".txt" in
    if exist_ascii d ascii
    then (drawing d ascii >>= λ art. done (bytes "BEGIN/OK/" ++ art ++ bytes "/END"))
    else done not_found

-- The answers to ON and OFF.
unfoldable pub register_service : List Bytes → Run Bytes
register_service (command ∷ service ∷ more) =
    if eq_bytes command (bytes "ON")
    then (if eq_bytes service (bytes "SERVIDOR") && (length more == 2)
        then done (bytes "BEGIN/OK/Servidor registrado/END")
        else if eq_bytes service (bytes "TENEDOR")
        then done (bytes "BEGIN/OK/Tenedor registrado/END")
        else done not_recognised)
    else if eq_bytes command (bytes "OFF")
        && (eq_bytes service (bytes "SERVIDOR") && (length more == 2))
    then done (bytes "BEGIN/OK/Servidor desconectado/END")
    else done not_recognised
register_service _ = done not_recognised

-- The tests on `tokens`, in the source's order; a list with no token cannot come out of the loop.
unfoldable pub answer : Disk → List Bytes → Run Bytes
answer d [] = done (bytes "BEGIN/ERROR/300/Mensaje mal formateado/END")
answer d (t ∷ []) =
    if eq_bytes t (bytes "OBJECTS")
    then done (bytes "BEGIN/OK/" ++ ascii_list ++ bytes "/END")
    else register_service (t ∷ [])
answer d (t ∷ name ∷ []) =
    if eq_bytes t (bytes "GET") then get_object d name else register_service (t ∷ name ∷ [])
answer d tokens = register_service tokens

unfoldable pub validate_request : Disk → Bytes → Run Bytes
validate_request d request =
    if length request == 0
    then done empty_message
    else substr request 0 6 >>= λ first.
        if not (eq_bytes first (bytes "BEGIN/"))
        then done bad_format
        else substr request (sub_size (length request) 4) npos >>= λ last.
            if not (eq_bytes last (bytes "/END"))
            then done bad_format
            else substr request 6 (sub_size (length request) 10) >>= λ content.
                split content >>= λ tokens. answer d tokens

-- ===== src/Simulation/Adapter.antt =====
-- include/fork/RequestColabHTTPAdapter.h: the router's translation between HTTP and the protocol.
pub mod Laws
use distributed_ascii_server.Prelude.{
  ℕ, zero, suc, ◌+◌, ◌-◌, ◌*◌, Bool, true, false, not, ◌&&◌, ◌||◌, Option, none, some, List, [],
  ◌∷◌, ◌++◌, map, ltb, leb, ◌==◌, length, drop, if◌then◌else◌,
}
use distributed_ascii_server.Text.{
  Bytes, bytes, Run, done, no_fuel, ◌>>=◌, npos, sub_size, slash, eq_bytes, find, rfind, substr,
}
use distributed_ascii_server.Text.Split.{split}
use distributed_ascii_server.Server.Http.{to_string, crlf, place}

-- serverFigures: for each server its number and its figures.
abbrev pub Figures : Type 0
Figures = List (ℕ × List Bytes)

unfoldable pub http_bad_request : Bytes
http_bad_request =
    bytes "HTTP/1.1 400 Bad Request"
    ++ crlf
    ++ bytes "Content-Type: text/plain"
    ++ crlf
    ++ bytes "Content-Length: 0"
    ++ crlf
    ++ crlf

unfoldable pub http_error_from_server : Bytes
http_error_from_server =
    bytes "HTTP/1.1 Unknown Server Error"
    ++ crlf
    ++ bytes "Content-Type: text/plain"
    ++ crlf
    ++ bytes "Content-Length: 0"
    ++ crlf
    ++ crlf

unfoldable pub http_figure : Bytes → Bytes
http_figure rest =
    (bytes "HTTP/1.1 200 OK"
      ++ crlf
      ++ bytes "Content-Type: text/plain"
      ++ crlf
      ++ bytes "Content-Length: ")
    ++ (to_string (length rest) ++ (crlf ++ crlf ++ rest))

unfoldable pub http_error_code : Bytes → Bytes
http_error_code rest =
    (bytes "HTTP/1.1 500 Internal Server Error"
      ++ crlf
      ++ bytes "Content-Type: text/plain"
      ++ crlf
      ++ bytes "Content-Length: ")
    ++ (to_string (length rest) ++ (crlf ++ crlf ++ rest))

-- The two loops of httpObtenerObjects: "server/object\n" for every figure.
unfoldable pub list_objects : Bytes → List Bytes → Bytes
list_objects server [] = []
list_objects server (object ∷ objects) =
    (server ++ (slash ++ (object ++ 10 ∷ []))) ++ list_objects server objects

unfoldable pub list_figures : Figures → Bytes
list_figures [] = []
list_figures ((number, objects) ∷ figures) =
    list_objects (to_string number) objects ++ list_figures figures

unfoldable pub http_obtener_objects : Figures → Bytes
http_obtener_objects figures = http_figure (list_figures figures)

-- getContent: the protocol content (true), or the reply for the client (false).
unfoldable pub get_content : Bytes → Run (Bool × Bytes)
get_content request =
    if not (place (rfind (bytes "BEGIN/") request) == 0)
      || not (place (rfind (bytes "/END") request) == sub_size (length request) 4)
    then done (false, http_bad_request)
    else if leb (place (rfind (bytes "/END") request)) 6
    then done (false, http_bad_request)
    else substr request 6 (sub_size (place (rfind (bytes "/END") request)) 6) >>= λ content.
        done (true, content)

unfoldable pub get_command_and_rest : Bytes → Run (Bytes × Bytes)
get_command_and_rest response = elim (find slash response) [
  | none ↦ done ([], [])
  | some pos ↦ substr response 0 pos >>= λ comando.
      substr response (pos + 1) npos >>= λ resto. done (comando, resto)
]

unfoldable pub check_first_input : Bytes × Bytes → Bytes
check_first_input (command, rest) =
    if eq_bytes command (bytes "OK")
    then http_figure rest
    else if eq_bytes command (bytes "ERROR")
    then http_error_code rest
    else http_error_from_server

unfoldable pub build_response : Bytes → Run Bytes
build_response request = get_content request >>= λ content.
    if content.0
    then (get_command_and_rest content.1 >>= λ command_rest. done (check_first_input command_rest))
    else done content.1

abbrev pub get_figures_protocol : Bytes
get_figures_protocol = bytes "BEGIN/OBJECTS/END"

-- The loop of setServerFiguresByResponse: the lines that are not empty.
abbrev pub unless_empty : Bytes → List Bytes → List Bytes
unless_empty [] ts = ts
unless_empty (c ∷ s) ts = (c ∷ s) ∷ ts

unfoldable pub lines_loop : ℕ → Bytes → Run (List Bytes)
lines_loop zero objects = no_fuel
lines_loop (suc fuel) objects = elim (find (10 ∷ []) objects) [
  | none ↦ done (unless_empty objects [])
  | some pos ↦ substr objects 0 pos >>= λ obj.
      lines_loop fuel (drop (suc pos) objects) >>= λ more. done (unless_empty obj more)
]

unfoldable pub set_server_figures_by_response : Figures → Bytes → Run Figures
set_server_figures_by_response figures response = get_content response >>= λ content.
    if content.0
    then (get_command_and_rest content.1 >>= λ command_rest.
        if eq_bytes command_rest.0 (bytes "OK")
        then (lines_loop (suc (length command_rest.1)) command_rest.1 >>= λ objects_list.
            done (figures ++ (length figures, objects_list) ∷ []))
        else done figures)
    else done figures

-- std::stoi on base 10: blanks, a sign and digits; `none` where it throws. A negative number is
-- never a server's, and stands here as none of them: 2 ^ 32 less its size.
abbrev is_space : ℕ → Bool
is_space c = (c == 32) || leb 9 c && leb c 13

abbrev is_digit : ℕ → Bool
is_digit c = leb b'0' c && leb c b'9'

unfoldable pub stoi_digits : ℕ → Bool → Bytes → Option ℕ
stoi_digits n started [] = if started then some n else none
stoi_digits n started (c ∷ s) =
    let rest = stoi_digits (n * 10 + (c - b'0')) true s in
    if is_digit c then rest else if started then some n else none

abbrev signed : Bool → Option ℕ → Option ℕ
signed negative none = none
signed false (some n) = if ltb 2147483647 n then none else some n
signed true (some n) =
    if ltb 2147483648 n then none else some (if n == 0 then 0 else 4294967296 - n)

unfoldable pub stoi : Bytes → Option ℕ
unfolding stoi_digits
stoi [] = none
stoi (c ∷ s) =
    let rest = stoi s in
    if is_space c
    then rest
    else if c == b'-'
    then signed true (stoi_digits 0 false s)
    else if c == b'+'
    then signed false (stoi_digits 0 false s)
    else signed false (stoi_digits 0 false (c ∷ s))

-- std::find over a server's figures, and std::find_if over the servers.
unfoldable pub has_object : Bytes → List Bytes → Bool
has_object name [] = false
has_object name (o ∷ os) = eq_bytes o name || has_object name os

unfoldable pub find_figure : ℕ → Bytes → Figures → Bool
find_figure object_id name [] = false
find_figure object_id name ((number, objects) ∷ figures) =
    (number == object_id) && has_object name objects || find_figure object_id name figures

-- The switch on the number of parts. EXIT_SUCCESS, for a request that goes on to the server, is
-- true; else the text is the reply to the client.
unfoldable pub switch_parts : Figures → List Bytes → Bool × Bytes
switch_parts figures (word ∷ []) =
    if eq_bytes word (bytes "objects")
    then (false, http_obtener_objects figures)
    else (false, http_bad_request)
switch_parts figures (word ∷ number ∷ name ∷ []) =
    if eq_bytes word (bytes "object")
    then elim (stoi number) [
      | none ↦ (false, http_bad_request)
      | some object_id ↦
          if find_figure object_id name figures
          then (true, bytes "BEGIN/GET/" ++ (name ++ bytes "/END"))
          else (false, http_bad_request)
    ]
    else (false, http_bad_request)
switch_parts figures _ = (false, http_bad_request)

-- if (!content.empty() && content[0] == '/') content.erase(0, 1);
unfoldable pub erase_slash : Bytes → Bytes
erase_slash [] = []
erase_slash (c ∷ content) = if c == b'/' then content else c ∷ content

-- The last part is refused if it is empty.
unfoldable pub last_part : List Bytes → Bytes
last_part [] = []
last_part (t ∷ []) = t
last_part (t ∷ u ∷ ts) = last_part (u ∷ ts)

unfoldable pub build_request : Figures → Bytes → Run (Bool × Bytes)
build_request figures request =
    let end = place (rfind (bytes "HTTP/1.1") request) in
    if not (place (find (bytes "GET ") request) == 0) || not (end == sub_size (length request) 8)
    then done (false, http_bad_request)
    else if (end == npos) || leb end 5
    then done (false, http_bad_request)
    else substr request 5 (sub_size (sub_size end 5) 1) >>= λ content.
        split (erase_slash content) >>= λ content_splitted.
        if length (last_part content_splitted) == 0
        then done (false, http_bad_request)
        else done (switch_parts figures content_splitted)

-- ===== src/Fork/Requests.antt =====
-- What forkServer answers a client: the body of init's loop, generateHTMLIndex and
-- translateAsciiToHttp. translateHttpToAscii is that of Server.cpp, word for word. An exception is
-- `none`; init catches none, so it ends the program.
pub mod Laws
pub mod Routing
use distributed_ascii_server.Prelude.{
  ℕ, zero, suc, ◌+◌, ◌-◌, ◌%◌, Bool, true, false, not, ◌&&◌, ◌||◌, Option, none, some, List, [],
  ◌∷◌, ◌++◌, ltb, ◌==◌, length, if◌then◌else◌,
}
use distributed_ascii_server.Text.{
  Bytes, bytes, Run, done, ◌>>=◌, npos, sub_size, slash, eq_bytes, find, find_from, contains,
  substr, c_str,
}
use distributed_ascii_server.Server.Http.{place, crlf, to_string, translate_http_to_ascii}
use distributed_ascii_server.Fork.Registry.{ForkServer, Network, request_from_server, caught}
use distributed_ascii_server.Text.Maps.{Map, lookup}

-- The inner loops of generateHTMLIndex.
unfoldable pub find_port : Bytes → Map (Bytes × ℕ) → Bytes
find_port ip [] = bytes "???"
find_port ip ((key, (ip', port)) ∷ servers) =
    if eq_bytes ip' ip then to_string port else find_port ip servers

unfoldable pub list_figures : List Bytes → Bytes
list_figures [] = []
list_figures (fig ∷ figs) = (bytes "<li>" ++ (fig ++ bytes "</li>")) ++ list_figures figs

unfoldable pub table_rows : Map (Bytes × ℕ) → Map (List Bytes) → Bytes
table_rows known [] = []
table_rows known ((ip, figs) ∷ entries) =
    (bytes "<tr><td>" ++ (ip ++ (bytes ":" ++ (find_port ip known ++ bytes "</td><td><ul>"))))
    ++ ((list_figures figs ++ bytes "</ul></td></tr>") ++ table_rows known entries)

unfoldable pub generate_html_index : ForkServer → Bytes
generate_html_index s =
    bytes "<html><head><title>Servidores de Figuras</title></head><body>"
    ++ (bytes "<h1>Servidores Registrados</h1>"
        ++ (bytes "<table border='1'><tr><th>Servidor (IP:Puerto)</th><th>Figuras</th></tr>"
            ++ (table_rows s.known_servers s.server_objects ++ bytes "</table></body></html>")))

unfoldable pub http_error : Bytes → Bytes → Bytes
http_error code message =
    bytes "HTTP/1.1 "
    ++ (code
        ++ ((bytes " Error" ++ crlf ++ bytes "Content-Type: text/plain" ++ crlf ++ crlf)
            ++ message))

unfoldable pub http_ok : Bytes → Bytes
http_ok content =
    (bytes "HTTP/1.1 200 OK"
      ++ crlf
      ++ bytes "Content-Type: text/plain; charset=utf-8"
      ++ crlf
      ++ crlf)
    ++ content

unfoldable pub http_internal_error : Bytes
http_internal_error =
    bytes "HTTP/1.1 500 Internal Server Error"
    ++ crlf
    ++ bytes "Content-Type: text/plain"
    ++ crlf
    ++ crlf
    ++ bytes "Invalid server response format"

unfoldable pub translate_ascii_to_http : Bytes → Run Bytes
translate_ascii_to_http response =
    if contains (bytes "BEGIN/ERROR/") response
    then (let code_start = place (find (bytes "BEGIN/ERROR/") response) + 12 in
        let code_end = place (find_from slash response code_start) in
        substr response code_start (sub_size code_end code_start) >>= λ code.
        substr response ((code_end + 1) % 18446744073709551616)
          (sub_size (sub_size (length response) code_end) 5)
        >>= λ message. done (http_error code message))
    else if contains (bytes "BEGIN/OK/") response
    then (substr response 9 (sub_size (length response) 13) >>= λ content. done (http_ok content))
    else done http_internal_error

-- The list of objects: a line break before each but while the list is still empty.
unfoldable pub append_objects : List Bytes → Bytes → Bytes
append_objects [] object_list = object_list
append_objects (obj ∷ objects) object_list =
    append_objects objects
      ((if length object_list == 0 then object_list else object_list ++ 10 ∷ []) ++ obj)

unfoldable pub object_list_loop : Map (List Bytes) → Bytes → Bytes
object_list_loop [] object_list = object_list
object_list_loop ((ip, objects) ∷ servers) object_list =
    object_list_loop servers (append_objects objects object_list)

-- std::find over one server's objects; an address that is no key has none.
unfoldable pub has_object : Bytes → List Bytes → Bool
has_object name [] = false
has_object name (o ∷ os) = eq_bytes o name || has_object name os

abbrev pub objects_at : Bytes → Map (List Bytes) → List Bytes
objects_at ip server_objects = elim (lookup ip server_objects) [ none ↦ [] | some os ↦ os ]

-- The loop over the known servers: the first that has the object.
unfoldable pub find_server : Bytes → Map (List Bytes) → Map (Bytes × ℕ) → Option (Bytes × ℕ)
find_server name server_objects [] = none
find_server name server_objects ((key, (ip, port)) ∷ servers) =
    if has_object name (objects_at ip server_objects)
    then some (ip, port)
    else find_server name server_objects servers

unfoldable pub get_object : Network → ForkServer → Bytes → Option Bytes
get_object network s object_name = elim (find_server object_name s.server_objects s.known_servers) [
  | none ↦ some (bytes "BEGIN/ERROR/201/El dibujo solicitado no fue encontrado/END")
  | some (ip, port) ↦
      request_from_server network ip port (bytes "BEGIN/GET/" ++ (object_name ++ bytes "/END"))
]

unfoldable pub ascii_response : Network → ForkServer → Bytes → Option Bytes
ascii_response network s request =
    if contains (bytes "BEGIN/OBJECTS/END") request
    then some (bytes "BEGIN/OK/" ++ (object_list_loop s.server_objects [] ++ bytes "/END"))
    else if contains (bytes "BEGIN/GET/") request
    then (let start = place (find (bytes "BEGIN/GET/") request) + 10 in
        elim (find (bytes "/END") request) [
          | none ↦ some []
          | some end ↦ elim (caught (substr request start (sub_size end start))) [
            | none ↦ none
            | some object_name ↦ get_object network s object_name
          ]
        ])
    else some []

-- One client, from the request that was read to the reply. The loop that writes the reply in pieces
-- is not modelled.
unfoldable pub handle_client : Network → ForkServer → Bytes → Option Bytes
handle_client network s http_request =
    if contains (bytes "GET / ") http_request || contains (bytes "GET /HTTP") http_request
    then some (http_ok_html (generate_html_index s))
    else elim (caught (translate_http_to_ascii (c_str http_request))) [
      | none ↦ none
      | some ascii_request ↦ elim (ascii_response network s ascii_request) [
        | none ↦ none
        | some response ↦ caught (translate_ascii_to_http (c_str response))
      ]
    ]
  where
    http_ok_html : Bytes → Bytes
    http_ok_html html =
        (bytes "HTTP/1.1 200 OK"
          ++ crlf
          ++ bytes "Content-Type: text/html; charset=utf-8"
          ++ crlf
          ++ crlf)
        ++ html

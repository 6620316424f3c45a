-- ===== src/Fork/Requests/Routing.antt =====
-- A drawing that a client asks the router for.
use distributed_ascii_server.Prelude.{
  ℕ, ◌+◌, ◌^◌, ◌<◌, ◌≡◌, refl, ap, ◌∙◌, inl, inr, true, false, Option, some, List, [], ◌++◌, arith,
  length, All-append, ne→==,
}
use distributed_ascii_server.Text.{Bytes, bytes, done, sub_size, find, contains, starts_with, shift}
use distributed_ascii_server.Text.Laws.{
  Free, find-prefix, find_word, contains-find, substr_part, c_str_whole,
}
use distributed_ascii_server.Server.Replies.{
  ok_answer, contains-ok_answer, ok_answer_marked, ok_answer_content,
}
use distributed_ascii_server.Server.Answers.{message}
use distributed_ascii_server.Server.EndToEnd.{get_line, translate_get}
use distributed_ascii_server.Fork.Registry.{ForkServer, Network, read_response, request_from_server}
use distributed_ascii_server.Fork.Requests.{
  has_object, objects_at, http_ok, translate_ascii_to_http, get_object, ascii_response,
  handle_client,
}
use distributed_ascii_server.Fork.Requests.Laws.{IsKnown, find_server_lem}

abbrev get_message : Bytes → Bytes
get_message name = message (bytes "GET/" ++ name)

-- The end mark is found behind the name, if the name does not begin with END.
end_place :
    (name : Bytes)
    → Free b'/' name
    → starts_with (bytes "END") (name ++ bytes "/END") ≡ false
    → find (bytes "/END") (get_message name) ≡ some (10 + length name)
unfolding find starts_with
end_place name plain other =
    rw other (ap shift_10 (find_word b'/' (bytes "END") name [] plain) ∙ total)
  where
    shift_10 : Option ℕ → Option ℕ
    shift_10 o =
        shift 1 (
          shift 1 (shift 1 (shift 1 (shift 1 (shift 1 (shift 1 (shift 1 (shift 1 (shift 1 o)))))))))

    total : shift_10 (some (length name)) ≡ some (10 + length name)
    total = ap some (omega arith)

-- The router's own reply with a drawing, which has no Content-Length.
translate_ok :
    (content : Bytes)
    → length content < 2 ^ 63
    → contains (bytes "BEGIN/ERROR/") (content ++ bytes "/END") ≡ false
    → translate_ascii_to_http (ok_answer content) ≡ done (http_ok content)
unfolding translate_ascii_to_http
translate_ok content size clean =
    rw
      (
        contains-ok_answer (content ++ bytes "/END"),
        clean,
        ok_answer_marked content,
        ok_answer_content content size,
      )
      refl

-- A server whose pieces make up an answer has given it.
request_answered :
    (network : Network) (ip : Bytes) (port : ℕ) (request content : Bytes) (reads : List Bytes)
    → network ip port request ≡ some reads
    → read_response reads [] ≡ ok_answer content
    → request_from_server network ip port request ≡ some (ok_answer content)
unfolding request_from_server
request_answered network ip port request content reads asked whole =
    rw (asked, request_from_server, whole, ne→== (length (ok_answer content)) 0 (omega arith)) refl

-- The request for a drawing becomes a request for its name to the registered servers.
ascii_response_get :
    (network : Network) (s : ForkServer) (name : Bytes)
    → Free b'/' name
    → length name < 2 ^ 62
    → starts_with (bytes "END") (name ++ bytes "/END") ≡ false
    → contains (bytes "BEGIN/OBJECTS/END") (get_message name) ≡ false
    → ascii_response network s (get_message name) ≡ get_object network s name
unfolding ascii_response
ascii_response_get network s name plain short other no_list =
    rw
      (
        no_list,
        contains-find (bytes "BEGIN/GET/") (get_message name) 0 found,
        end_place name plain other,
        found,
        substr_part (get_message name) (bytes "BEGIN/GET/") name (bytes "/END") 10
            (sub_size (10 + length name) 10) refl refl (omega arith),
      )
      refl
  where
    found : find (bytes "BEGIN/GET/") (get_message name) ≡ some 0
    found = find-prefix (bytes "BEGIN/GET/") (name ++ bytes "/END")

-- A GET of a drawing through the router, where some known server has the drawing and each known one
-- that has it answers the request for it, in any pieces, with content of its own: the client gets the
-- 200 reply with the content of one known server that has it. The request has no NUL, and nothing in
-- it asks for the index or for the list of objects; the name has no space or slash and does not begin
-- with END; no content, with the end mark behind it, holds the mark of an error, or a NUL.
pub handle_client_get :
    (network : Network) (s : ForkServer) (name rest : Bytes) (content : Bytes → ℕ → Bytes)
    (ip : Bytes) (port : ℕ)
    → Free 0 (get_line name rest)
    → Free b' ' name
    → Free b'/' name
    → Free 0 name
    → length name < 2 ^ 62
    → starts_with (bytes "END") (name ++ bytes "/END") ≡ false
    → contains (bytes "GET / ") (get_line name rest) ≡ false
    → contains (bytes "GET /HTTP") (get_line name rest) ≡ false
    → contains (bytes "GET /objects") (get_line name rest) ≡ false
    → contains (bytes "BEGIN/OBJECTS/END") (get_message name) ≡ false
    → IsKnown ip port s.known_servers
    → has_object name (objects_at ip s.server_objects) ≡ true
    → ((i : Bytes) (p : ℕ)
        → IsKnown i p s.known_servers
        → has_object name (objects_at i s.server_objects) ≡ true
        → (reads : List Bytes) × (network i p (get_message name) ≡ some reads)
          × (read_response reads [] ≡ ok_answer (content i p))
          × Free 0 (content i p)
          × (length (content i p) < 2 ^ 63)
          × (contains (bytes "BEGIN/ERROR/") (content i p ++ bytes "/END") ≡ false))
    → (i : Bytes) × (p : ℕ) × IsKnown i p s.known_servers
      × (has_object name (objects_at i s.server_objects) ≡ true)
      × (handle_client network s (get_line name rest) ≡ some (http_ok (content i p)))
unfolding handle_client get_object
handle_client_get network s name rest content ip port clean plain slashless clean_name short other
      no_index no_index' no_objects no_list known has answers =
    elim (find_server_lem name s.server_objects s.known_servers) [
      | inr (no_one, lacks) ↦
          let lacked : has_object name (objects_at ip s.server_objects) ≡ false =
            lacks ip port known in
          absurd cc
      | inl (i, p, chosen, is_known, has_it) ↦
          let (reads, asked, whole, clean_content, small, safe) = answers i p is_known has_it in
          let clean_get : Free 0 (get_message name) =
            All-append _ (bytes "BEGIN/GET/") _ (omega arith)
              (All-append _ name _ clean_name (omega arith)) in
          let clean_answer : Free 0 (ok_answer (content i p)) =
            All-append _ (bytes "BEGIN/OK/") _ (omega arith)
              (All-append _ (content i p) _ clean_content (omega arith)) in
          (
            i,
            p,
            is_known,
            has_it,
            rw
                (
                  no_index,
                  no_index',
                  c_str_whole (get_line name rest) clean,
                  translate_get name rest plain short no_objects,
                  ascii_response_get network s name slashless short other no_list,
                  chosen,
                  request_answered network i p (get_message name) (content i p) reads asked whole,
                  c_str_whole (ok_answer (content i p)) clean_answer,
                  translate_ok (content i p) small safe,
                )
                refl,
          )
    ]

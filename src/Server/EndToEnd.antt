-- ===== src/Server/EndToEnd.antt =====
-- One connection from the HTTP request to the HTTP reply.
use distributed_ascii_server.Prelude.{
  ℕ, zero, suc, ◌+◌, ◌/◌, ◌%◌, ◌^◌, ◌<◌, ◌≡◌, refl, ap, ◌∙◌, inl, inr, true, false, Option, some,
  List, [], ◌∷◌, ◌++◌, arith, ltb, ◌==◌, length, get_or, set, All-append, Bool-cases, Option-cases,
  subst,
}
use distributed_ascii_server.Text.{
  Bytes, bytes, done, sub_size, find, contains, c_str, starts_with, shift,
}
use distributed_ascii_server.Text.Laws.{
  Free, find-prefix, find_word, contains-find, substr_part, c_str_whole, c_str-Free,
}
use distributed_ascii_server.FileSystem.Disk.{Disk}
use distributed_ascii_server.FileSystem.Directory.{exist_ascii, extract_block}
use distributed_ascii_server.FileSystem.Drawing.{drawing_loop, drawing}
use distributed_ascii_server.Server.Http.{
  digits_from, to_string, translate_http_to_ascii, http_ok, crlf,
}
use distributed_ascii_server.Server.Task.{read_request, handle_request, task}
use distributed_ascii_server.Server.Replies.{ok_answer, translate_ok}
use distributed_ascii_server.Server.Answers.{message, validate_get}
use distributed_ascii_server.Server.Sending.{concat, send_response_whole}

-- What drawing collects has no NUL, since it is made of C strings.
drawing_loop-Free :
    (fuel : ℕ) (d : Disk) (name : Bytes) (next : ℕ) (sofar art : Bytes)
    → Free 0 sofar
    → drawing_loop fuel d name next sofar ≡ done art
    → Free 0 art
unfolding drawing_loop
drawing_loop-Free zero d name next sofar art clean h = cc
drawing_loop-Free (suc fuel) d name next sofar art clean h = elim (Bool-cases (next == 255)) [
  | inl e ↦ let same : sofar ≡ art = cc (rw e at h) in subst (Free 0) same clean
  | inr e ↦ elim (Option-cases (extract_block d name next)) [
    | inl missing ↦ cc (rw (e, missing) at h)
    | inr (block, read) ↦
        drawing_loop-Free fuel d name (get_or block 255 0) (sofar ++ c_str (set block 255 0)) art
          (All-append _ sofar _ clean (c_str-Free (set block 255 0))) (rw (e, read) at h)
  ]
]

digits_from-Free : (fuel n : ℕ) (out : Bytes) → Free 0 out → Free 0 (digits_from fuel n out)
unfolding digits_from
digits_from-Free zero n out h = h
digits_from-Free (suc fuel) n out h =
    let out' = (b'0' + n % 10) ∷ out in
    elim (Bool-cases (ltb n 10)) [
      | inl e ↦ rw e (omega arith, h)
      | inr e ↦ rw e (digits_from-Free fuel (n / 10) out' (omega arith, h))
    ]

http_ok-Free : (content : Bytes) → Free 0 content → Free 0 (http_ok content)
unfolding http_ok to_string
http_ok-Free content h =
    All-append _
      (bytes "HTTP/1.1 200 OK"
        ++ crlf
        ++ bytes "Content-Type: text/plain; charset=utf-8"
        ++ crlf
        ++ bytes "Content-Length: ")
      _ (omega arith)
      (All-append _ (digits_from 20 (length content) []) _
        (digits_from-Free 20 (length content) [] tt)
        (All-append _ (crlf ++ bytes "Connection: close" ++ crlf ++ crlf) content (omega arith) h))

-- The request for a drawing, up to the version of HTTP.
abbrev pub get_line : Bytes → Bytes → Bytes
get_line name rest = bytes "GET /get/" ++ (name ++ (bytes " HTTP/" ++ rest))

version_place :
    (name rest : Bytes)
    → Free b' ' name
    → find (bytes " HTTP/") (get_line name rest) ≡ some (9 + length name)
unfolding find starts_with
version_place name rest plain = ap shift_9 (find_word b' ' (bytes "HTTP/") name rest plain) ∙ total
  where
    shift_9 : Option ℕ → Option ℕ
    shift_9 o =
        shift 1 (shift 1 (shift 1 (shift 1 (shift 1 (shift 1 (shift 1 (shift 1 (shift 1 o))))))))

    total : shift_9 (some (length name)) ≡ some (9 + length name)
    total = ap some (omega arith)

-- A request for a drawing becomes the protocol's GET of its name, if nothing in it asks for the
-- list of objects.
pub translate_get :
    (name rest : Bytes)
    → Free b' ' name
    → length name < 2 ^ 62
    → contains (bytes "GET /objects") (get_line name rest) ≡ false
    → translate_http_to_ascii (get_line name rest) ≡ done (message (bytes "GET/" ++ name))
unfolding translate_http_to_ascii
translate_get name rest plain size other =
    rw
      (
        other,
        contains-find (bytes "GET /get/") (get_line name rest) 0 found,
        version,
        found,
        substr_part (get_line name rest) (bytes "GET /get/") name (bytes " HTTP/" ++ rest) 9
            (sub_size (9 + length name) 9) refl refl (omega arith),
      )
      refl
  where
    found : find (bytes "GET /get/") (get_line name rest) ≡ some 0
    found = find-prefix (bytes "GET /get/") (name ++ (bytes " HTTP/" ++ rest))

    version : find (bytes " HTTP/") (get_line name rest) ≡ some (9 + length name)
    version = version_place name rest plain

-- A GET of a drawing on the disk: the texts written to the client make up the 200 reply with the
-- drawing as its content. The request may arrive in any pieces; it has no NUL, and nothing in it
-- asks for the list of objects; the name has no space or slash; the drawing, with the end mark
-- behind it, does not hold the mark of an error.
pub task_get :
    (d : Disk) (reads : List Bytes) (name rest art : Bytes)
    → read_request reads [] ≡ get_line name rest
    → Free 0 (get_line name rest)
    → Free b' ' name
    → Free b'/' name
    → Free 0 name
    → length name < 2 ^ 62
    → length art < 2 ^ 63
    → contains (bytes "GET /objects") (get_line name rest) ≡ false
    → exist_ascii d (name ++ bytes ".txt") ≡ true
    → drawing d (name ++ bytes ".txt") ≡ done art
    → contains (bytes "BEGIN/ERROR/") (art ++ bytes "/END") ≡ false
    → (chunks : List Bytes) × (task d reads ≡ done chunks) × (concat chunks ≡ http_ok art)
unfolding task handle_request
task_get d reads name rest art arrived clean plain slashless clean_name short small other here drawn
      safe =
    let clean_art : Free 0 art =
      unfold drawing in drawing_loop-Free 257 d (name ++ bytes ".txt") 0 [] art tt drawn in
    let sent = send_response_whole (http_ok art) (http_ok-Free art clean_art) in
    let get : Bytes = message (bytes "GET/" ++ name) in
    let clean_get : Free 0 get =
      All-append _ (bytes "BEGIN/GET/") _ (omega arith)
        (All-append _ name _ clean_name (omega arith)) in
    let clean_answer : Free 0 (ok_answer art) =
      All-append _ (bytes "BEGIN/OK/") _ (omega arith)
        (All-append _ art _ clean_art (omega arith)) in
    (
      sent.0,
      rw
          (
            arrived,
            c_str_whole (get_line name rest) clean,
            translate_get name rest plain short other,
            c_str_whole get clean_get,
            validate_get d name slashless short,
            here,
            drawn,
            c_str_whole (ok_answer art) clean_answer,
            translate_ok art small safe,
          )
          sent.1,
      sent.2,
    )

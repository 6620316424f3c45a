-- ===== src/AsciiServer/Laws.antt =====
-- What ASCIIServer answers.
use distributed_ascii_server.Prelude.{
  ◌^◌, ◌<◌, ◌≡◌, refl, ap, ◌∙◌, true, List, [], ◌∷◌, ◌++◌, arith, if◌then◌else◌, length, ne→==,
  lt→ltb, length-append, All-append,
}
use distributed_ascii_server.Text.{Bytes, bytes, done, ◌>>=◌, npos, sub_size, eq_bytes}
use distributed_ascii_server.Text.Laws.{Free, eq_bytes_refl, substr_part, substr_rest, c_str_whole}
use distributed_ascii_server.Text.Split.{parts, split-eq-parts, parts_whole, parts-slash}
use distributed_ascii_server.FileSystem.Disk.{Disk}
use distributed_ascii_server.FileSystem.Directory.{exist_ascii}
use distributed_ascii_server.FileSystem.Drawing.{drawing}
use distributed_ascii_server.Server.Protocol.{not_found}
use distributed_ascii_server.Server.Replies.{ok_answer}
use distributed_ascii_server.Server.Answers.{message}
use distributed_ascii_server.Server.Sending.{concat, send_response_whole}
use distributed_ascii_server.AsciiServer.{get_drawing, answer_tokens, validate_ascii, handle_socket}

validate_ascii-message :
    (d : Disk) (content : Bytes)
    → length content < 2 ^ 63
    → validate_ascii d (message content) ≡ answer_tokens d (parts content)
unfolding validate_ascii
validate_ascii-message d content size =
    let all = length-append {0} content (bytes "/END") in
    rw
      (
        ne→== (length (message content)) 0 (omega arith),
        substr_part (message content) [] (bytes "BEGIN/") (content ++ bytes "/END") 0 6 refl refl
            refl,
        eq_bytes_refl (bytes "BEGIN/"),
        substr_rest (message content) (bytes "BEGIN/" ++ content) (bytes "/END")
            (sub_size (length (message content)) 4) npos refl (omega arith) (omega arith),
        eq_bytes_refl (bytes "/END"),
        substr_part (message content) (bytes "BEGIN/") content (bytes "/END") 6
            (sub_size (length (message content)) 10) refl refl (omega arith),
        split-eq-parts content,
      )
      refl

-- The content of the answer: a line that names the drawing, and the drawing.
abbrev pub titled : Bytes → Bytes → Bytes
titled name art = bytes "Este es el contenido del dibujo " ++ (name ++ (b':' ∷ 10 ∷ art))

-- GET of a name is answered, if the disk has a file of that name, with its title and what drawing
-- collects from it, and if not with error 201. A name with a slash in it would be taken apart.
pub validate_ascii_get :
    (d : Disk) (name : Bytes)
    → Free b'/' name
    → length name < 2 ^ 62
    → validate_ascii d (message (bytes "GET/" ++ name)) ≡ (
        if exist_ascii d name
        then (drawing d name >>= λ art. done (ok_answer (titled name art)))
        else done not_found)
unfolding answer_tokens get_drawing eq_bytes
validate_ascii_get d name plain size =
    validate_ascii-message d (bytes "GET/" ++ name) (omega arith)
    ∙ ap (answer_tokens d) (
        parts-slash (bytes "GET") name (omega arith)
        ∙ ap (λ (ts : List Bytes). bytes "GET" ∷ ts) (parts_whole name plain))
    ∙ refl

-- One exchange: a GET of a drawing on the disk, whose name has fewer than 200 bytes and no slash, is
-- answered by texts that make up the titled drawing. Neither name nor drawing has a NUL.
pub handle_socket_get :
    (d : Disk) (name art : Bytes)
    → Free b'/' name
    → Free 0 name
    → Free 0 art
    → length name < 200
    → exist_ascii d name ≡ true
    → drawing d name ≡ done art
    → (chunks : List Bytes) × (handle_socket d (message (bytes "GET/" ++ name)) ≡ done chunks)
      × (concat chunks ≡ ok_answer (titled name art))
unfolding handle_socket
handle_socket_get d name art plain clean clean_art short here drawn =
    let get : Bytes = message (bytes "GET/" ++ name) in
    let clean_get : Free 0 get =
      All-append _ (bytes "BEGIN/GET/") _ (omega arith) (All-append _ name _ clean (omega arith)) in
    let clean_answer : Free 0 (ok_answer (titled name art)) =
      All-append _ (bytes "BEGIN/OK/Este es el contenido del dibujo ") _ (omega arith) (
        All-append _ (name ++ (b':' ∷ 10 ∷ art)) _
          (All-append _ name _ clean (omega arith, (omega arith, clean_art))) (omega arith)) in
    let sent = send_response_whole (ok_answer (titled name art)) clean_answer in
    (
      sent.0,
      rw
          (
            c_str_whole get clean_get,
            lt→ltb (length get) 256 (omega (arith, length-append {0} name (bytes "/END"))),
            validate_ascii_get d name plain (omega arith),
            here,
            drawn,
          )
          sent.1,
      sent.2,
    )

-- ===== src/Simulation/Adapter/Laws.antt =====
-- What the router sends on for a request, and what it makes of an answer.
use distributed_ascii_server.Prelude.{
  suc, ◌+◌, ◌^◌, ◌<◌, ◌≡◌, refl, sym, ap, ◌∙◌, true, false, none, some, List, [], ◌∷◌, ◌++◌,
  append_assoc, arith, length, if◌then◌else◌, length-append, eq→==, ne→==, lt→leb,
}
use distributed_ascii_server.Text.{
  Bytes, bytes, done, npos, sub_size, slash, eq_bytes, rfind, starts_with,
}
use distributed_ascii_server.Text.Laws.{
  Free, eq_bytes_refl, find-prefix, find_byte, substr_part, substr_rest, rfind_end,
}
use distributed_ascii_server.Text.Split.{parts, split-eq-parts, parts_whole, parts-slash}
use distributed_ascii_server.Simulation.Adapter.{
  Figures, http_bad_request, http_figure, http_error_code, http_error_from_server, get_content,
  get_command_and_rest, check_first_input, build_response, erase_slash, last_part, switch_parts,
  find_figure, stoi, build_request,
}

-- A message of the protocol with one command and the rest.
abbrev pub answer : Bytes → Bytes → Bytes
answer command rest = bytes "BEGIN/" ++ (command ++ (b'/' ∷ (rest ++ bytes "/END")))

-- No second message starts inside this one.
abbrev pub IsSingle : Bytes → Type 0
IsSingle message = rfind (bytes "BEGIN/") message ≡ some 0

module _ (command rest : Bytes) (size : length command + length rest < 2 ^ 62) where
  abbrev body : Bytes
  body = command ++ (b'/' ∷ rest)

  regroup : answer command rest ≡ (bytes "BEGIN/" ++ body) ++ bytes "/END"
  regroup =
      ap (λ (s : Bytes). bytes "BEGIN/" ++ s)
        (sym (append_assoc command (b'/' ∷ rest) (bytes "/END")))

  size_body : length body ≡ length command + suc (length rest)
  size_body = length-append command (b'/' ∷ rest)

  end_place : rfind (bytes "/END") (answer command rest) ≡ some (6 + length body)
  end_place =
      ap (rfind (bytes "/END")) regroup
      ∙ rfind_end (bytes "/END") (bytes "BEGIN/" ++ body) (unfold rfind starts_with in refl)
      ∙ ap some (omega arith)

  size_answer : length (answer command rest) ≡ 10 + length body
  size_answer =
      ap (λ (s : Bytes). length s) regroup
      ∙ omega (arith, length-append {0} (bytes "BEGIN/" ++ body) (bytes "/END"))

  content_lem :
      IsSingle (answer command rest) → get_content (answer command rest) ≡ done (true, body)
  unfolding get_content
  content_lem single =
      rw
        (
          single,
          end_place,
          eq→== (6 + length body) (sub_size (length (answer command rest)) 4)
              (omega (arith, size_answer, size_body)),
          lt→leb (6 + length body) 6 (omega (arith, size_body)),
          substr_part (answer command rest) (bytes "BEGIN/") body (bytes "/END") 6
              (sub_size (6 + length body) 6) regroup refl (omega (arith, size_body)),
        )
        refl

  command_lem : Free b'/' command → get_command_and_rest body ≡ done (command, rest)
  unfolding get_command_and_rest
  command_lem plain =
      rw
        (
          find_byte b'/' command rest plain,
          get_command_and_rest,
          substr_part body [] command (b'/' ∷ rest) 0 (length command) refl refl refl,
          substr_rest body (command ++ slash) rest (length command + 1) npos
              (sym (append_assoc command slash rest))
              (omega (arith, length-append {0} command slash)) (omega arith),
        )
        refl

  -- The router's reply to an answer follows the command alone: OK is 200 with the rest as its
  -- content, ERROR is 500 with the rest, and any other command is an unknown error.
  pub build_response_lem :
      Free b'/' command
      → IsSingle (answer command rest)
      → build_response (answer command rest)
        ≡ done (
            if eq_bytes command (bytes "OK")
            then http_figure rest
            else if eq_bytes command (bytes "ERROR")
            then http_error_code rest
            else http_error_from_server)
  unfolding build_response check_first_input
  build_response_lem plain single = rw (content_lem single, command_lem plain) refl

-- A request for figure `name` of server `number`.
abbrev pub object_line : Bytes → Bytes → Bytes
object_line number name = bytes "GET /object/" ++ (number ++ (b'/' ∷ (name ++ bytes " HTTP/1.1")))

module _ (figures : Figures) (number name : Bytes) (size : length number + length name < 2 ^ 62)
    (plain : Free b'/' number) (plain_name : Free b'/' name) (named : 0 < length name) where
  abbrev path : Bytes
  path = bytes "object/" ++ (number ++ (b'/' ∷ name))

  path_line : object_line number name ≡ bytes "GET /" ++ (path ++ (bytes " " ++ bytes "HTTP/1.1"))
  path_line =
      ap (λ (s : Bytes). bytes "GET /object/" ++ s)
        (sym (append_assoc number (b'/' ∷ name) (bytes " HTTP/1.1")))

  size_path : length path ≡ 8 + length number + length name
  size_path = omega (arith, length-append {0} number (b'/' ∷ name))

  version_place : rfind (bytes "HTTP/1.1") (object_line number name) ≡ some (6 + length path)
  version_place =
      ap (rfind (bytes "HTTP/1.1")) (
        path_line
        ∙ sym (append_assoc (bytes "GET /") path (bytes " HTTP/1.1"))
        ∙ sym (append_assoc (bytes "GET /" ++ path) (bytes " ") (bytes "HTTP/1.1")))
      ∙ rfind_end (bytes "HTTP/1.1") ((bytes "GET /" ++ path) ++ bytes " ")
          (unfold rfind starts_with in refl)
      ∙ ap some (omega (arith, length-append {0} (bytes "GET /" ++ path) (bytes " ")))

  size_line : length (object_line number name) ≡ 14 + length path
  size_line =
      ap (λ (s : Bytes). length s) path_line
      ∙ omega (arith, length-append {0} path (bytes " HTTP/1.1"))

  parts-path : parts path ≡ bytes "object" ∷ number ∷ name ∷ []
  parts-path =
      parts-slash (bytes "object") (number ++ (b'/' ∷ name)) (omega arith)
      ∙ ap (λ (ts : List Bytes). bytes "object" ∷ ts)
          (parts-slash number name plain
            ∙ ap (λ (ts : List Bytes). number ∷ ts) (parts_whole name plain_name))

  -- A request for a figure goes on to the server, as the protocol's GET of the figure, exactly when
  -- the server's number is one and that server has the figure; else the client gets a 400.
  pub build_request_lem :
      build_request figures (object_line number name)
      ≡ done (elim (stoi number) [
        | none ↦ (false, http_bad_request)
        | some object_id ↦
            if find_figure object_id name figures
            then (true, bytes "BEGIN/GET/" ++ (name ++ bytes "/END"))
            else (false, http_bad_request)
      ])
  unfolding build_request erase_slash last_part switch_parts
  build_request_lem =
      rw
        (
          find-prefix (bytes "GET ")
              (bytes "/object/" ++ (number ++ (b'/' ∷ (name ++ bytes " HTTP/1.1")))),
          version_place,
          eq→== (6 + length path) (sub_size (length (object_line number name)) 8)
              (omega (arith, size_line, size_path)),
          ne→== (6 + length path) npos (omega (arith, size_path)),
          lt→leb (6 + length path) 5 (omega arith),
          substr_part (object_line number name) (bytes "GET /") path (bytes " HTTP/1.1") 5
              (sub_size (sub_size (6 + length path) 5) 1) path_line refl (omega (arith, size_path)),
          split-eq-parts path,
          parts-path,
          ne→== (length name) 0 (omega arith),
          eq_bytes_refl (bytes "object"),
        )
        refl

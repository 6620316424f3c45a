-- ===== src/Server/Http.antt =====
-- translateHttpToAscii and translateAsciiToHttp of Server.cpp.
use distributed_ascii_server.Prelude.{
  ℕ, zero, suc, ◌+◌, ◌/◌, ◌%◌, Option, none, some, [], ◌∷◌, ◌++◌, ltb, if◌then◌else◌, length,
}
use distributed_ascii_server.Text.{
  Bytes, bytes, Run, done, ◌>>=◌, npos, sub_size, slash, find, find_from, contains, substr,
}

-- operator<< of a size: its decimal digits. 20 rounds are enough for a 64-bit number.
unfoldable pub digits_from : ℕ → ℕ → Bytes → Bytes
digits_from zero n out = out
digits_from (suc fuel) n out =
    let out' = (b'0' + n % 10) ∷ out in
    let rest = digits_from fuel (n / 10) out' in if ltb n 10 then out' else rest

unfoldable pub to_string : ℕ → Bytes
unfolding digits_from
to_string n = digits_from 20 n []

-- A place as size_t: npos where there is none.
abbrev pub place : Option ℕ → ℕ
place none = npos
place (some i) = i

unfoldable pub translate_http_to_ascii : Bytes → Run Bytes
translate_http_to_ascii request =
    if contains (bytes "GET /objects") request
    then done (bytes "BEGIN/OBJECTS/END")
    else if contains (bytes "GET /get/") request
    then elim (find (bytes " HTTP/") request) [
      | none ↦ done (bytes "BEGIN/ERROR/400/Invalid HTTP request/END")
      | some end ↦
          let start = place (find (bytes "GET /get/") request) + 9 in
          substr request start (sub_size end start) >>= λ ascii_name.
          done (bytes "BEGIN/GET/" ++ ascii_name ++ bytes "/END")
    ]
    else if contains (bytes "POST /on/server") request
    then done (bytes "BEGIN/ON/SERVIDOR/param1/param2/END")
    else if contains (bytes "POST /on/fork") request
    then done (bytes "BEGIN/ON/TENEDOR/END")
    else if contains (bytes "POST /off/server") request
    then done (bytes "BEGIN/OFF/SERVIDOR/param1/param2/END")
    else done (bytes "BEGIN/ERROR/400/Invalid HTTP request/END")

-- "\r\n"
abbrev pub crlf : Bytes
crlf = 13 ∷ 10 ∷ []

unfoldable pub http_error : Bytes → Bytes → Bytes
http_error code message =
    bytes "HTTP/1.1 "
    ++ (code
        ++ ((bytes " Error"
              ++ crlf
              ++ bytes "Content-Type: text/plain"
              ++ crlf
              ++ bytes "Content-Length: ")
            ++ (to_string (length message)
                ++ (crlf ++ bytes "Connection: close" ++ crlf ++ crlf ++ message))))

unfoldable pub http_ok : Bytes → Bytes
http_ok content =
    (bytes "HTTP/1.1 200 OK"
      ++ crlf
      ++ bytes "Content-Type: text/plain; charset=utf-8"
      ++ crlf
      ++ bytes "Content-Length: ")
    ++ (to_string (length content)
        ++ (crlf ++ bytes "Connection: close" ++ crlf ++ crlf ++ content))

abbrev pub error_msg : Bytes
error_msg = bytes "Invalid server response format"

unfoldable pub http_internal_error : Bytes
http_internal_error =
    bytes "HTTP/1.1 500 Internal Server Error"
    ++ crlf
    ++ bytes "Content-Type: text/plain"
    ++ crlf
    ++ bytes "Content-Length: "
    ++ to_string (length error_msg)
    ++ crlf
    ++ bytes "Connection: close"
    ++ crlf
    ++ crlf
    ++ error_msg

-- `codeEnd + 1` and the lengths are size_t, so they wrap when there is no slash after the code.
unfoldable pub translate_ascii_to_http : Bytes → Run Bytes
translate_ascii_to_http response =
    if contains (bytes "BEGIN/ERROR/") response
    then (let code_start = place (find (bytes "BEGIN/ERROR/") response) + 12 in
        let code_end = place (find_from slash response code_start) in
        substr response code_start (sub_size code_end code_start) >>= λ code.
        substr response ((code_end + 1) % 18446744073709551616)
          (sub_size (sub_size (length response) code_end) 5)
        >>= λ message. done (http_error code message))
    else if contains (bytes "BEGIN/OK/") response
    then (substr response 9 (sub_size (length response) 13) >>= λ content. done (http_ok content))
    else done http_internal_error

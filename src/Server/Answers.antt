-- ===== src/Server/Answers.antt =====
-- What validateRequest answers.
use distributed_ascii_server.Prelude.{
  ℕ, zero, suc, ◌^◌, ◌≤◌, ◌<◌, ◌≡◌, ◌≢◌, refl, ap, ◌∙◌, ◌⊎◌, inl, inr, Bool, true, false, not, ◌&&◌,
  none, List, [], ◌∷◌, ◌++◌, arith, ◌==◌, if◌then◌else◌, length, take, drop, Bool-cases,
  Option-cases, get_or, set, ne→==, length-append, length-take,
}
use distributed_ascii_server.Text.{
  Bytes, bytes, Run, done, out_of_range, fault, no_fuel, ◌>>=◌, npos, sub_size, eq_bytes, c_str,
}
use distributed_ascii_server.Text.Laws.{
  Free, eq_bytes_refl, eq_bytes→eq, substr_part, substr_in, substr_rest,
}
use distributed_ascii_server.Text.Split.{parts, split-eq-parts, parts_whole, parts-slash}
use distributed_ascii_server.FileSystem.Disk.{Disk}
use distributed_ascii_server.FileSystem.Directory.{exist_ascii, exist_file, extract_block}
use distributed_ascii_server.FileSystem.Drawing.{drawing_loop, drawing}
use distributed_ascii_server.Server.Protocol.{
  validate_request, answer, get_object, register_service, not_found, not_recognised, ascii_list,
  bad_format,
}
use distributed_ascii_server.Server.Replies.{ok_answer, error_answer}

-- A message of the protocol.
abbrev pub message : Bytes → Bytes
message content = bytes "BEGIN/" ++ (content ++ bytes "/END")

-- A message is taken apart at its slashes, whatever stands in it.
pub validate_message :
    (d : Disk) (content : Bytes)
    → length content < 2 ^ 63
    → validate_request d (message content) ≡ answer d (parts content)
unfolding validate_request
validate_message d content size =
    let all = length-append {0} content (bytes "/END") in
    rw
      (
        ne→== (length (message content)) 0 (omega arith),
        substr_part (message content) [] (bytes "BEGIN/") (content ++ bytes "/END") 0 6 refl refl
            refl,
        eq_bytes_refl (bytes "BEGIN/"),
        substr_rest (message content) (bytes "BEGIN/" ++ content) (bytes "/END")
            (sub_size (length (message content)) 4) npos refl (omega arith) (omega arith),
        eq_bytes_refl (bytes "/END"),
        substr_part (message content) (bytes "BEGIN/") content (bytes "/END") 6
            (sub_size (length (message content)) 10) refl refl (omega arith),
        split-eq-parts content,
      )
      refl

-- GET of a drawing is answered, if its text file is on the disk, with what drawing collects from
-- it, and if not with error 201. A name with a slash in it would be taken apart.
pub validate_get :
    (d : Disk) (name : Bytes)
    → Free b'/' name
    → length name < 2 ^ 62
    → validate_request d (message (bytes "GET/" ++ name)) ≡ (
        if exist_ascii d (name ++ bytes ".txt")
        then (drawing d (name ++ bytes ".txt") >>= λ art. done (ok_answer art))
        else done not_found)
unfolding answer get_object eq_bytes
validate_get d name plain size =
    validate_message d (bytes "GET/" ++ name) (omega arith)
    ∙ ap (answer d) (
        parts-slash (bytes "GET") name (omega arith)
        ∙ ap (λ (ts : List Bytes). bytes "GET" ∷ ts) (parts_whole name plain))
    ∙ refl

-- An OK answer, or an error whose code has no slash in it.
abbrev pub IsAnswer : Bytes → Type 0
IsAnswer r =
    ((content : Bytes) × (r ≡ ok_answer content))
    ⊎ ((code : Bytes) × (text : Bytes) × Free b'/' code × (r ≡ error_answer code text))

-- A run that ends in an answer; one whose fuel runs out says nothing.
abbrev pub Answered : Run Bytes → Type 0
Answered (done r) = IsAnswer r
Answered no_fuel = Unit
Answered out_of_range = ⊥
Answered fault = ⊥

abbrev Collected : Run Bytes → Type 0
Collected (done r) = Unit
Collected no_fuel = Unit
Collected out_of_range = ⊥
Collected fault = ⊥

extract_block-none :
    (d : Disk) (name : Bytes) (number : ℕ)
    → extract_block d name number ≡ none
    → exist_file d name ≡ none
unfolding extract_block
extract_block-none d name number h = elim (Option-cases (exist_file d name)) [
  | inl e ↦ e
  | inr (first, e) ↦ elim (Bool-cases (number == 0)) [
    | inl z ↦ cc (rw (z, e) at h)
    | inr z ↦ cc (rw z at h)
  ]
]

drawing_loop-Collected :
    (fuel : ℕ) (d : Disk) (name : Bytes) (next : ℕ) (art : Bytes)
    → exist_file d name ≢ none
    → Collected (drawing_loop fuel d name next art)
unfolding drawing_loop
drawing_loop-Collected zero d name next art found = tt
drawing_loop-Collected (suc fuel) d name next art found = elim (Bool-cases (next == 255)) [
  | inl e ↦ rw e tt
  | inr e ↦ elim (Option-cases (extract_block d name next)) [
    | inl missing ↦ absurd (found (extract_block-none d name next missing))
    | inr (block, read) ↦
        rw (e, read)
          (drawing_loop-Collected fuel d name (get_or block 255 0) (art ++ c_str (set block 255 0))
            found)
  ]
]

exist_ascii-exist_file :
    (d : Disk) (name : Bytes) → exist_ascii d name ≡ true → exist_file d name ≢ none
unfolding exist_ascii exist_file
exist_ascii-exist_file d name h = ground arith

not_found-IsAnswer : IsAnswer not_found
not_found-IsAnswer =
    inr (bytes "201", bytes "El dibujo solicitado no fue encontrado", omega arith, refl)

bad_format-IsAnswer : IsAnswer bad_format
bad_format-IsAnswer = inr (bytes "300", bytes "Formato de mensaje inválido", omega arith, refl)

not_recognised-IsAnswer : IsAnswer not_recognised
not_recognised-IsAnswer =
    inr (bytes "300", bytes "Mensaje no reconocido por el protocolo", omega arith, refl)

get_object-Answered : (d : Disk) (name : Bytes) → Answered (get_object d name)
unfolding get_object
get_object-Answered d name = elim (Bool-cases (exist_ascii d (name ++ bytes ".txt"))) [
  | inr e ↦ rw e not_found-IsAnswer
  | inl e ↦ rw e (
      wrapped (drawing d (name ++ bytes ".txt")) (
        unfold drawing in
        drawing_loop-Collected 257 d (name ++ bytes ".txt") 0 []
          (exist_ascii-exist_file d (name ++ bytes ".txt") e)))
]
  where
    wrapped :
        (run : Run Bytes)
        → Collected run
        → Answered (run >>= λ art. done (bytes "BEGIN/OK/" ++ art ++ bytes "/END"))
    wrapped (done art) h = inl (art, refl)
    wrapped no_fuel h = tt
    wrapped out_of_range h = h
    wrapped fault h = h

Answered-if : (b : Bool) (x y : Run Bytes) → Answered x → Answered y → Answered (if b then x else y)
Answered-if true x y h k = h
Answered-if false x y h k = k

register_service-Answered : (tokens : List Bytes) → Answered (register_service tokens)
unfolding register_service
register_service-Answered [] = not_recognised-IsAnswer
register_service-Answered (t ∷ []) = not_recognised-IsAnswer
register_service-Answered (t ∷ service ∷ more) =
    Answered-if (eq_bytes t (bytes "ON")) _ _
      (Answered-if (eq_bytes service (bytes "SERVIDOR") && (length more == 2)) _ _
        (inl (bytes "Servidor registrado", refl))
        (Answered-if (eq_bytes service (bytes "TENEDOR")) _ _
          (inl (bytes "Tenedor registrado", refl)) not_recognised-IsAnswer))
      (Answered-if
        (eq_bytes t (bytes "OFF") && (eq_bytes service (bytes "SERVIDOR") && (length more == 2))) _
        _ (inl (bytes "Servidor desconectado", refl)) not_recognised-IsAnswer)

answer-Answered : (d : Disk) (tokens : List Bytes) → Answered (answer d tokens)
unfolding answer
answer-Answered d [] = inr (bytes "300", bytes "Mensaje mal formateado", omega arith, refl)
answer-Answered d (t ∷ []) =
    Answered-if (eq_bytes t (bytes "OBJECTS")) _ _ (inl (ascii_list, refl))
      (register_service-Answered (t ∷ []))
answer-Answered d (t ∷ name ∷ []) =
    Answered-if (eq_bytes t (bytes "GET")) _ _ (get_object-Answered d name)
      (register_service-Answered (t ∷ name ∷ []))
answer-Answered d (t ∷ u ∷ v ∷ more) = register_service-Answered (t ∷ u ∷ v ∷ more)

-- For every disk and every request shorter than 2 ^ 63, validateRequest throws no exception and
-- follows no null pointer, and if it returns (a chain of blocks that closes on itself keeps it from
-- that), what it returns is an answer of the protocol.
pub validate_request-Answered :
    (d : Disk) (request : Bytes) → length request < 2 ^ 63 → Answered (validate_request d request)
unfolding validate_request
validate_request-Answered d request size =
    Answered-if (length request == 0) _ _
      (inr (bytes "300", bytes "El mensaje está vacío o es inválido", omega arith, refl))
      (elim (Bool-cases (eq_bytes (take 6 request) (bytes "BEGIN/"))) [
        | inr e ↦ rw (substr_in request 0 6 (omega arith), e) bad_format-IsAnswer
        | inl e ↦
            let long : 6 ≤ length request = omega (
              arith,
              length-take {0} 6 request,
              ap (λ (s : Bytes). length s) (eq_bytes→eq _ _ e),
            ) in
            rw (substr_in request 0 6 (omega arith), e)
              (rw
                (
                  substr_in request (sub_size (length request) 4) npos (omega arith),
                  substr_in request 6 (sub_size (length request) 10) long,
                )
                (Answered-if
                  (not (
                    eq_bytes (take npos (drop (sub_size (length request) 4) request))
                      (bytes "/END")))
                  _ _ bad_format-IsAnswer (rw split-eq-parts (answer-Answered d (parts _)))))
      ])

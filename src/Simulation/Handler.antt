-- ===== src/Simulation/Handler.antt =====
-- src/ColabProtocolHandler.cpp: the drawing server's answers.
pub mod Laws
use distributed_ascii_server.Prelude.{
  ℕ, zero, suc, ◌+◌, Bool, true, false, Option, none, some, List, [], ◌∷◌, ◌++◌, ◌==◌, length,
  if◌then◌else◌,
}
use distributed_ascii_server.Text.{
  Bytes, bytes, Run, done, ◌>>=◌, npos, sub_size, slash, eq_bytes, find, substr,
}
use distributed_ascii_server.FileSystem.Disk.{Disk}
use distributed_ascii_server.FileSystem.Directory.{exist_ascii}
use distributed_ascii_server.FileSystem.Drawing.{drawing}

abbrev pub name_list : Bytes
name_list =
    bytes "CocaCola.txt"
    ++ 10 ∷ bytes "Exitante.txt"
    ++ 10 ∷ bytes "Foca.txt"
    ++ 10 ∷ bytes "Gogeta.txt"
    ++ 10 ∷ bytes "Goku.txt"
    ++ 10 ∷ bytes "GoyoCat.txt"
    ++ 10 ∷ bytes "Personal.txt"
    ++ 10 ∷ []

-- deleteFlags: what stands between the first BEGIN/ and the first /END.
unfoldable pub delete_flags : Bytes → Run Bytes
delete_flags request = elim (find (bytes "BEGIN/") request) [
  | none ↦ done []
  | some init_pos ↦ elim (find (bytes "/END") request) [
    | none ↦ done []
    | some end_pos ↦ substr request (init_pos + 6) (sub_size end_pos (init_pos + 6))
  ]
]

-- The map OPP; -1 is none.
pub data Operation : Type 0 where
  on off okay error get : Operation

unfoldable pub determ_operation : Bytes → Option Operation
determ_operation request =
    if eq_bytes request (bytes "ON")
    then some on
    else if eq_bytes request (bytes "OFF")
    then some off
    else if eq_bytes request (bytes "OK")
    then some okay
    else if eq_bytes request (bytes "ERROR")
    then some error
    else if eq_bytes request (bytes "GET")
    then some get
    else none

unfoldable pub obj_case : Bytes
obj_case = bytes "BEGIN/OK/" ++ (name_list ++ bytes "/END")

unfoldable pub get_case : Disk → Bytes → Run Bytes
get_case d request =
    if exist_ascii d request
    then (drawing d request >>= λ art. done (bytes "BEGIN/OK/" ++ (art ++ bytes "/END")))
    else done (bytes "-1")

-- The switch of buildAnswer: the results of onCase, offCase, okCase and errorCase are dropped.
unfoldable pub switch_operation : Disk → Operation → Bytes → Run Bytes
switch_operation d get response = get_case d response >>= λ answer.
    done (if eq_bytes answer (bytes "-1") then bytes "BEGIN/ERROR/201/END" else answer)
switch_operation d on response = done response
switch_operation d off response = done response
switch_operation d okay response = done response
switch_operation d error response = done response

-- buildAnswer once the flags are off.
unfoldable pub build_content : Disk → Bytes → Run Bytes
build_content d response =
    if length response == 0
    then done (bytes "BEGIN/ERROR/200/END")
    else if eq_bytes response (bytes "OBJECTS")
    then done obj_case
    else elim (find slash response) [
      | none ↦ done (bytes "BEGIN/ERROR/300/END")
      | some pos ↦ substr response 0 pos >>= λ operation_string.
          elim (determ_operation operation_string) [
            | none ↦ done (bytes "BEGIN/ERROR/300/END")
            | some operation ↦
                substr response (pos + 1) npos >>= λ rest. switch_operation d operation rest
          ]
    ]

unfoldable pub build_answer : Disk → Bytes → Run Bytes
build_answer d request = delete_flags request >>= λ response. build_content d response

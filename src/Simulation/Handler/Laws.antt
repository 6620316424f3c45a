-- ===== src/Simulation/Handler/Laws.antt =====
-- What the drawing server answers.
use distributed_ascii_server.Prelude.{
  ℕ, suc, ◌+◌, ◌^◌, ◌<◌, ◌≡◌, refl, sym, ap, ◌∙◌, false, Option, some, [], ◌∷◌, ◌++◌, arith,
  if◌then◌else◌, length, ne→==, Bool-cases, inl, inr,
}
use distributed_ascii_server.Text.{
  Bytes, bytes, Run, done, out_of_range, fault, no_fuel, ◌>>=◌, npos, sub_size, slash, eq_bytes,
  find, starts_with, shift,
}
use distributed_ascii_server.Text.Laws.{Free, find-prefix, find_byte, substr_part, substr_rest}
use distributed_ascii_server.FileSystem.Disk.{Disk}
use distributed_ascii_server.FileSystem.Directory.{exist_ascii}
use distributed_ascii_server.FileSystem.Drawing.{drawing}
use distributed_ascii_server.Simulation.Handler.{
  delete_flags, determ_operation, get, get_case, switch_operation, build_content, build_answer,
}

abbrev pub get_message : Bytes → Bytes
get_message name = bytes "BEGIN/GET/" ++ (name ++ bytes "/END")

-- The end mark is found behind the name, unless the name itself begins like one.
find_end :
    (name : Bytes)
    → Free b'/' name
    → find (bytes "/END") (name ++ bytes "/END") ≡ some (length name)
unfolding find starts_with
find_end [] h = refl
find_end (c ∷ name) h =
    rw (ne→== b'/' c (λ e. h.0 (sym e)), find_end name h.1) (ap some (omega arith))

end_place :
    (name : Bytes)
    → Free b'/' name
    → starts_with (bytes "END") (name ++ bytes "/END") ≡ false
    → find (bytes "/END") (get_message name) ≡ some (10 + length name)
unfolding find starts_with
end_place name plain other = ap shift_9 step ∙ total
  where
    shift_9 : Option ℕ → Option ℕ
    shift_9 o =
        shift 1 (shift 1 (shift 1 (shift 1 (shift 1 (shift 1 (shift 1 (shift 1 (shift 1 o))))))))

    step : find (bytes "/END") (b'/' ∷ (name ++ bytes "/END")) ≡ some (suc (length name))
    step = rw (other, find_end name plain) (ap some (omega arith))

    total : shift_9 (some (suc (length name))) ≡ some (10 + length name)
    total = ap some (omega arith)

module _ (d : Disk) (name : Bytes) (size : length name < 2 ^ 62) where
  abbrev reply : Bytes → Run Bytes
  reply art = done (bytes "BEGIN/OK/" ++ (art ++ bytes "/END"))

  abbrev not_an_error :
      (r : Run Bytes)
      → ((r >>= reply) >>= λ a.
          done (if eq_bytes a (bytes "-1") then bytes "BEGIN/ERROR/201/END" else a))
        ≡ (r >>= reply)
  unfolding eq_bytes
  not_an_error (done art) = refl
  not_an_error out_of_range = refl
  not_an_error fault = refl
  not_an_error no_fuel = refl

  switch_get : switch_operation d get name ≡ (
      if exist_ascii d name then (drawing d name >>= reply) else done (bytes "BEGIN/ERROR/201/END"))
  unfolding switch_operation get_case
  switch_get = elim (Bool-cases (exist_ascii d name)) [
    | inl e ↦ rw e (not_an_error (drawing d name))
    | inr e ↦ rw e (unfold eq_bytes in refl)
  ]

  named_get : length (bytes "GET/" ++ name) ≡ 4 + length name
  named_get = omega arith

  build_content_get : build_content d (bytes "GET/" ++ name) ≡ switch_operation d get name
  unfolding build_content determ_operation eq_bytes
  build_content_get =
      rw
        (
          ne→== (length (bytes "GET/" ++ name)) 0 (omega arith),
          find_byte b'/' (bytes "GET") name (omega arith),
          substr_part (bytes "GET/" ++ name) [] (bytes "GET") (slash ++ name) 0 3 refl refl refl,
          substr_rest (bytes "GET/" ++ name) (bytes "GET/") name 4 npos refl refl (omega arith),
        )
        refl

  deleted :
      Free b'/' name
      → starts_with (bytes "END") (name ++ bytes "/END") ≡ false
      → delete_flags (get_message name) ≡ done (bytes "GET/" ++ name)
  unfolding delete_flags
  deleted plain other =
      let started : find (bytes "BEGIN/") (get_message name) ≡ some 0 =
        find-prefix (bytes "BEGIN/") (bytes "GET/" ++ (name ++ bytes "/END")) in
      rw
        (
          delete_flags,
          started,
          end_place name plain other,
          substr_part (get_message name) (bytes "BEGIN/") (bytes "GET/" ++ name) (bytes "/END") 6
              (sub_size (10 + length name) 6) refl refl (omega arith),
        )
        refl

  -- A GET is answered with the drawing if it is on the disk, and with error 201 if not. The name
  -- has no slash in it and does not begin with END.
  pub build_answer_get :
      Free b'/' name
      → starts_with (bytes "END") (name ++ bytes "/END") ≡ false
      → build_answer d (get_message name) ≡ (
          if exist_ascii d name
          then (drawing d name >>= λ art. done (bytes "BEGIN/OK/" ++ (art ++ bytes "/END")))
          else done (bytes "BEGIN/ERROR/201/END"))
  unfolding build_answer
  build_answer_get plain other = rw (deleted plain other) (build_content_get ∙ switch_get)

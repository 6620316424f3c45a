-- ===== src/FileSystem/Catalogue/Search.antt =====
-- The search of the directory, on a disk that represents a catalogue.
use distributed_ascii_server.Prelude.{
  ℕ, zero, suc, ◌+◌, ◌-◌, ◌*◌, ◌≤◌, ◌<◌, ◌≡◌, ◌≢◌, refl, sym, ap, ◌∙◌, inl, inr, true, false, not,
  ◌&&◌, none, some, [], ◌∷◌, arith, length, ltb, Bool-cases, lt→ltb, ltb→lt, ltb→le, lt→leb,
}
use distributed_ascii_server.Text.{Bytes, eq_bytes, c_str}
use distributed_ascii_server.Text.Laws.{eq_bytes_refl, eq_bytes→eq, eq_bytes-ne}
use distributed_ascii_server.Text.Maps.{lookup}
use distributed_ascii_server.FileSystem.Disk.{Disk, fread}
use distributed_ascii_server.FileSystem.Directory.{search_loop, search, exist_ascii, exist_file}
use distributed_ascii_server.FileSystem.Entry.{
  entry_name, entry_block, search_loop_found, search_loop-search,
}
use distributed_ascii_server.FileSystem.Catalogue.{Catalogue, IsFile, Files}

search_loop_grows :
    (fuel : ℕ) (d : Disk) (name : Bytes) (i : ℕ) (last : Bytes) (r : ℕ)
    → search_loop fuel d name i last ≡ some r
    → i ≤ r
unfolding search_loop
search_loop_grows zero d name i last r h = cc
search_loop_grows (suc fuel) d name i last r h =
    elim (Bool-cases (not (eq_bytes name last) && ltb i 256)) [
      | inl go ↦
          omega
            (arith, search_loop_grows fuel d name (i + 17) (c_str (fread d i 16)) r (rw go at h))
      | inr stop ↦ ground (arith, h, stop)
    ]

-- A name that no entry has takes the search beyond what existFile accepts.
search_loop_absent :
    (d : Disk) (name : Bytes) (fuel j : ℕ) (last : Bytes) (r : ℕ)
    → eq_bytes name last ≡ false
    → ((i : ℕ) → j ≤ i → i < 14 → eq_bytes name (entry_name d i) ≡ false)
    → j ≤ 14
    → search_loop fuel d name (j * 17) last ≡ some r
    → 255 ≤ r
unfolding search_loop
search_loop_absent d name zero j last r other no_entry low h = cc
search_loop_absent d name (suc fuel) j last r other no_entry low h =
    let rest : search_loop fuel d name (j * 17 + 17) (entry_name d j) ≡ some r =
      rw (other, lt→ltb (j * 17) 256 (omega arith)) at h in
    elim (Bool-cases (ltb j 14)) [
      | inl lt ↦
          let small : j < 14 = ltb→lt _ _ lt in
          let step : j * 17 + 17 ≡ suc j * 17 = omega arith in
          search_loop_absent d name fuel (suc j) (entry_name d j) r (no_entry j (omega arith) small)
            (λ i a b. no_entry i (omega arith) b) small (rw step at rest)
      | inr ge ↦ omega (
        arith,
        ltb→le j 14 ge,
        search_loop_grows fuel d name (j * 17 + 17) (entry_name d j) r rest,
      )
    ]

-- The entry that the catalogue's first file of this name has.
pub record IsAt (d : Disk) (j k : ℕ) (fs : Catalogue) (name text : Bytes) : Type 0 where
  pub after : j ≤ k
  pub before : k < j + length fs
  pub file : IsFile d k name text
  pub first : (i : ℕ) → j ≤ i → i < k → eq_bytes name (entry_name d i) ≡ false

differs : (s t : Bytes) → eq_bytes s t ≡ false → s ≢ t
differs s t h e = cc (h, ap (eq_bytes s) e, eq_bytes_refl s)

not_here :
    (d : Disk) (j : ℕ) (own text name : Bytes)
    → IsFile d j own text
    → eq_bytes own name ≡ false
    → eq_bytes name (entry_name d j) ≡ false
not_here d j own text name file other =
    ap (eq_bytes name) file.named ∙ eq_bytes-ne name own (λ e. differs own name other (sym e))

pub lookup-IsAt :
    (d : Disk) (j : ℕ) (fs : Catalogue) (name text : Bytes)
    → Files d j fs
    → lookup name fs ≡ some text
    → (k : ℕ) × IsAt d j k fs name text
unfolding lookup
lookup-IsAt d j [] name text files h = cc
lookup-IsAt d j ((own, body) ∷ fs) name text files h = elim (Bool-cases (eq_bytes own name)) [
  | inl e ↦
      let same_name : own ≡ name = eq_bytes→eq own name e in
      let same_text : body ≡ text = cc (rw e at h) in
      (
        j,
        record {
          after = omega arith;
          before = omega arith;
          file = rw (← same_name, ← same_text) files.0;
          first = λ i a b. absurd (omega arith);
        },
      )
  | inr e ↦
      let (k, at) = lookup-IsAt d (suc j) fs name text files.1 (rw e at h) in
      (
        k,
        record {
          after = omega (arith, at.after);
          before = omega (arith, at.before);
          file = at.file;
          first = λ i a b. elim (Bool-cases (ltb j i)) [
            | inl lt ↦ at.first i (ltb→lt _ _ lt) b
            | inr ge ↦
                let same : i ≡ j = omega (arith, ltb→le j i ge) in
                ap (λ (q : ℕ). eq_bytes name (entry_name d q)) same
                ∙ not_here d j own body name files.0 e
          ];
        },
      )
]

pub lookup-absent :
    (d : Disk) (j : ℕ) (fs : Catalogue) (name : Bytes)
    → Files d j fs
    → name ≢ []
    → lookup name fs ≡ none
    → (i : ℕ) → j ≤ i
    → i < 14
    → eq_bytes name (entry_name d i) ≡ false
unfolding lookup
lookup-absent d j [] name files named h i a b =
    ap (eq_bytes name) (files i a b).1 ∙ eq_bytes-ne name [] named
lookup-absent d j ((own, body) ∷ fs) name files named h i a b =
    elim (Bool-cases (eq_bytes own name)) [
      | inl e ↦ cc (rw e at h)
      | inr e ↦ elim (Bool-cases (ltb j i)) [
        | inl lt ↦ lookup-absent d (suc j) fs name files.1 named (rw e at h) i (ltb→lt _ _ lt) b
        | inr ge ↦
            let same : i ≡ j = omega (arith, ltb→le j i ge) in
            ap (λ (q : ℕ). eq_bytes name (entry_name d q)) same
            ∙ not_here d j own body name files.0 e
      ]
    ]

module _ (d : Disk) (fs : Catalogue) (name : Bytes) (files : Files d 0 fs) (named : name ≢ [])
    (fit : length fs ≤ 14) where
  pub search_found : (text : Bytes) (k : ℕ) → IsAt d 0 k fs name text → search d name ≡ k * 17 + 17
  unfolding search
  search_found text k at =
      rw
        (
          search_loop_found d name k 17 0 [] (eq_bytes-ne name [] named) at.first
              (ap (eq_bytes name) at.file.named ∙ eq_bytes_refl name) (omega arith)
              (omega (arith, at.before)) (omega (arith, at.before)),
          search,
        )
        refl

  pub search_absent : lookup name fs ≡ none → 255 ≤ search d name
  search_absent h =
      search_loop_absent d name 17 0 [] (search d name) (eq_bytes-ne name [] named)
        (λ i a b. lookup-absent d 0 fs name files named h i a b) (omega arith)
        (search_loop-search d name)

  pub exist_file-absent : lookup name fs ≡ none → exist_file d name ≡ none
  unfolding exist_file
  exist_file-absent h = ground (arith, search_absent h)

  pub exist_ascii-absent : lookup name fs ≡ none → exist_ascii d name ≡ false
  unfolding exist_ascii
  exist_ascii-absent h = ground (arith, search_absent h)

  pub exist_file_at :
      (text : Bytes) (k : ℕ) → IsAt d 0 k fs name text → exist_file d name ≡ some (entry_block d k)
  unfolding exist_file
  exist_file_at text k at =
      let e : k * 17 + 17 - 1 ≡ k * 17 + 16 = omega arith in
      rw (search_found text k at, lt→leb 255 (k * 17 + 17) (omega (arith, at.before)), e) refl

  pub exist_ascii_at : (text : Bytes) (k : ℕ) → IsAt d 0 k fs name text → exist_ascii d name ≡ true
  unfolding exist_ascii
  exist_ascii_at text k at = rw (search_found text k at) (ground (arith, at.before))

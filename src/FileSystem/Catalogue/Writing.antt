-- ===== src/FileSystem/Catalogue/Writing.antt =====
-- What writeFile does, against the catalogue.
use distributed_ascii_server.Prelude.{
  ℕ, suc, ◌+◌, ◌*◌, ◌/◌, ◌≤◌, ◌<◌, ◌≡◌, ◌≢◌, refl, sym, ap, ◌∙◌, inl, inr, true, false, Option,
  none, some, [], ◌∷◌, ◌++◌, arith, length, length-append, Option-cases, le→ltb, ne→==, subst,
  Bool-cases, ltb, ltb→lt, ltb→le,
}
use distributed_ascii_server.Text.{Bytes, done}
use distributed_ascii_server.Text.Laws.{Free}
use distributed_ascii_server.Text.Maps.{lookup}
use distributed_ascii_server.FileSystem.Disk.{Disk}
use distributed_ascii_server.FileSystem.Blocks.{allocate_content}
use distributed_ascii_server.FileSystem.Directory.{exist_file, write_file}
use distributed_ascii_server.FileSystem.Allocate.{IsShaped}
use distributed_ascii_server.FileSystem.Content.{IsKept, Reads, IsStored}
use distributed_ascii_server.FileSystem.Entry.{entry_name, entry_block}
use distributed_ascii_server.FileSystem.NewEntry.{
  IsFirstFree, entered, entered_old, entered_block, name_here, name_other, block_other,
}
use distributed_ascii_server.FileSystem.WriteFile.{write_file-IsStored}
use distributed_ascii_server.FileSystem.Catalogue.{Catalogue, add, IsFile, Files, Holds}
use distributed_ascii_server.FileSystem.Catalogue.Search.{
  lookup-IsAt, exist_file_at, exist_file-absent,
}

-- The blocks that a text takes.
abbrev pub blocks : Bytes → ℕ
blocks text = length text / 255 + 1

-- A file stays one while its entry and the blocks of the disk are kept.
IsFile-kept :
    (d d' : Disk) (j : ℕ) (name text : Bytes)
    → entry_name d' j ≡ entry_name d j
    → entry_block d' j ≡ entry_block d j
    → IsKept 1 d d'
    → IsFile d j name text
    → IsFile d' j name text
IsFile-kept d d' j name text same_name same_block kept file = record {
  named = same_name ∙ file.named;
  inner = omega (arith, same_block, file.inner);
  low = omega (arith, same_block, file.low);
  short = file.short;
  reads =
      subst (λ (b : ℕ). Reads 1 d' b text) (sym same_block)
        (λ e kept'. file.reads e (record {
          grown = omega (arith, kept.grown, kept'.grown);
          same = λ p a b. kept'.same p a (omega (arith, kept.grown)) ∙ kept.same p a b;
        }));
}

Files-free :
    (d : Disk) (j : ℕ) (fs : Catalogue)
    → Files d j fs
    → (i : ℕ) → j + length fs ≤ i
    → i < 14
    → (entry_block d i ≡ 0) × (entry_name d i ≡ [])
Files-free d j [] files i a b = files i (omega arith) b
Files-free d j ((own, body) ∷ fs) files i a b = Files-free d (suc j) fs files.1 i (omega arith) b

Files-taken :
    (d : Disk) (j : ℕ) (fs : Catalogue)
    → Files d j fs
    → (i : ℕ) → j ≤ i
    → i < j + length fs
    → entry_block d i ≢ 0
Files-taken d j [] files i a b = absurd (omega arith)
Files-taken d j ((own, body) ∷ fs) files i a b = elim (Bool-cases (ltb j i)) [
  | inl lt ↦ Files-taken d (suc j) fs files.1 i (ltb→lt _ _ lt) (omega arith)
  | inr ge ↦
      let same : i ≡ j = omega (arith, ltb→le j i ge) in
      λ e. omega (arith, files.0.inner, ap (entry_block d) (sym same) ∙ e)
]

Files-append :
    (d d' : Disk) (j k : ℕ) (fs : Catalogue) (name text : Bytes)
    → k ≡ j + length fs
    → ((i : ℕ) → i < k → (entry_name d' i ≡ entry_name d i) × (entry_block d' i ≡ entry_block d i))
    → IsKept 1 d d'
    → IsFile d' k name text
    → ((i : ℕ) → k < i → i < 14 → (entry_block d' i ≡ 0) × (entry_name d' i ≡ []))
    → Files d j fs
    → Files d' j (fs ++ (name, text) ∷ [])
Files-append d d' j k [] name text e same kept file later files = (
  subst (λ (q : ℕ). IsFile d' q name text) (omega (arith, e)) file,
  λ i a b. later i (omega arith) b,
)
Files-append d d' j k ((own, body) ∷ fs) name text e same kept file later files =
    let here = same j (omega (arith, e)) in
    (
      IsFile-kept d d' j own body here.0 here.1 kept files.0,
      Files-append d d' (suc j) k fs name text (omega arith) same kept file later files.1,
    )

module _ (d : Disk) (n : ℕ) (fs : Catalogue) (name text : Bytes) (holds : Holds d n fs)
    (short : length name ≤ 15) (named : name ≢ []) (clean_name : Free 0 name)
    (clean : Free 0 text) where
  fits : length name ≤ 16
  fits = omega arith

  -- A taken name is refused, and the disk stays as it was.
  pub write_file_old :
      (old : Bytes) (path : Option Bytes)
      → lookup name fs ≡ some old
      → write_file name path (some d) ≡ done (false, some d)
  unfolding write_file
  write_file_old old path taken =
      let (k, at) = lookup-IsAt d 0 fs name old holds.files taken in
      rw
        (
          le→ltb 16 (length name) fits,
          ne→== (length name) 16 (omega arith),
          exist_file_at d fs name holds.files named holds.fit old k at,
        )
        refl

  module _ (room : n + blocks text ≤ 254) (more : length fs < 14)
      (free : lookup name fs ≡ none) where
    slot : IsFirstFree d (length fs)
    slot = record {
      reachable = more;
      taken = λ i a. Files-taken d 0 fs holds.files i (omega arith) (omega arith);
      free = (Files-free d 0 fs holds.files (length fs) (omega arith) more).0;
    }

    low : n < 254
    low = omega arith

    abbrev d₁ : Disk
    d₁ = entered d n (length fs) name holds.shaped holds.inner low slot fits

    abbrev d₂ : Disk
    d₂ = (allocate_content n (some text) d₁).1

    absent : exist_file d name ≡ none
    absent = exist_file-absent d fs name holds.files named holds.fit free

    written :
        (write_file name (some text) (some d) ≡ done (true, some d₂)) × IsStored d₁ d₂ n text 0
    written =
        write_file-IsStored d n (length fs) name text holds.shaped holds.inner low slot fits
          (omega arith) (omega arith) clean absent

    grown : n * 256 ≤ d₂.size
    grown = omega (arith, written.1.shaped.sized)

    IsKept-blocks : IsKept 1 d d₂
    IsKept-blocks = record {
      grown = omega (arith, grown, holds.shaped.sized);
      same = λ p a b.
          written.1.kept p (omega (arith, holds.shaped.sized)) (omega arith)
          ∙ entered_old d n (length fs) name holds.shaped holds.inner low slot fits p
              (inr (omega arith)) (omega arith) (omega (arith, holds.shaped.sized));
    }

    block_new : entry_block d₂ (length fs) ≡ n
    block_new =
        written.1.kept (length fs * 17 + 16) (omega (arith, holds.inner)) (omega arith)
        ∙ entered_block d n (length fs) name holds.shaped holds.inner low slot fits

    IsFile-new : IsFile d₂ (length fs) name text
    IsFile-new = record {
      named =
          name_here d n (length fs) name holds.shaped holds.inner low slot fits d₂ clean_name named
            absent grown written.1.kept;
      inner = omega (arith, block_new, holds.inner);
      low = omega (arith, block_new);
      short = omega arith;
      reads =
          subst (λ (b : ℕ). Reads 1 d₂ b text) (sym block_new)
            (λ e kept. written.1.reads e (record {
              grown = kept.grown;
              same = λ p a b. kept.same p (omega (arith, holds.inner)) b;
            }));
    }

    same_name : (i : ℕ) → i < 14 → i ≢ length fs → entry_name d₂ i ≡ entry_name d i
    same_name =
        name_other d n (length fs) name holds.shaped holds.inner low slot fits d₂ clean_name named
          absent grown written.1.kept

    same_block : (i : ℕ) → i < 14 → i ≢ length fs → entry_block d₂ i ≡ entry_block d i
    same_block =
        block_other d n (length fs) name holds.shaped holds.inner low slot fits d₂ clean_name named
          absent grown written.1.kept

    later : (i : ℕ) → length fs < i → i < 14 → (entry_block d₂ i ≡ 0) × (entry_name d₂ i ≡ [])
    later i a b =
        let before = Files-free d 0 fs holds.files i (omega arith) b in
        (same_block i b (omega arith) ∙ before.0, same_name i b (omega arith) ∙ before.1)

    written-Files : Files d₂ 0 (fs ++ (name, text) ∷ [])
    written-Files =
        Files-append d d₂ 0 (length fs) fs name text (omega arith)
          (λ i a.
            (same_name i (omega arith) (omega arith), same_block i (omega arith) (omega arith)))
          IsKept-blocks IsFile-new later holds.files

    pub write_file_new :
        (d' : Disk) × (write_file name (some text) (some d) ≡ done (true, some d'))
        × Holds d' (n + blocks text) (fs ++ (name, text) ∷ [])
    write_file_new = (
      d₂,
      written.0,
      record {
        shaped = subst (λ (m : ℕ). IsShaped d₂ m m) (omega arith) written.1.shaped;
        inner = omega arith;
        files = written-Files;
        fit = omega (arith, length-append {0} fs ((name, text) ∷ []));
      },
    )

  -- writeFile adds the file to the catalogue that the disk represents, or refuses it where the name
  -- is taken; all other files stay. There is room for the file, its name is not empty and has at
  -- most 15 bytes, and no byte of name or text is 0.
  pub write_file_refines :
      n + blocks text ≤ 254
      → length fs < 14
      → (d' : Disk) × (n' : ℕ) × (write_file name (some text) (some d)
          ≡ done ((add name text fs).0, some d'))
        × Holds d' n' (add name text fs).1
        × (n' ≤ n + blocks text)
  write_file_refines room more = elim (Option-cases (lookup name fs)) [
    | inl e ↦
        let (d', ran, after) = write_file_new room more e in
        (d', n + blocks text, rw e ran, rw e after, omega arith)
    | inr (old, e) ↦ (d, n, rw e (write_file_old old (some text) e), rw e holds, omega arith)
  ]

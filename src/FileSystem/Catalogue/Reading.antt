-- ===== src/FileSystem/Catalogue/Reading.antt =====
-- What a server finds and collects, against the catalogue.
use distributed_ascii_server.Prelude.{
  ℕ, ◌≤◌, length, ◌≡◌, ◌≢◌, refl, ◌∙◌, inl, inr, Option, none, some, [], arith, if◌then◌else◌,
  Option-cases,
}
use distributed_ascii_server.Text.{Bytes, Run, done, ◌>>=◌}
use distributed_ascii_server.Text.Maps.{lookup}
use distributed_ascii_server.FileSystem.Disk.{Disk}
use distributed_ascii_server.FileSystem.Directory.{exist_ascii}
use distributed_ascii_server.FileSystem.Drawing.{drawing}
use distributed_ascii_server.FileSystem.Entry.{entry_block}
use distributed_ascii_server.FileSystem.WriteFile.{drawing_loop_first}
use distributed_ascii_server.FileSystem.Catalogue.{Catalogue, Holds}
use distributed_ascii_server.FileSystem.Catalogue.Search.{
  IsAt, lookup-IsAt, exist_file_at, exist_ascii_at, exist_ascii-absent,
}

-- What each server does with a name: existASCII, and then the loop over the blocks.
abbrev pub served : Disk → Bytes → Run (Option Bytes)
served d name =
    if exist_ascii d name then (drawing d name >>= λ text. done (some text)) else done none

pub drawing_at :
    (d : Disk) (n : ℕ) (fs : Catalogue) (name text : Bytes) (k : ℕ)
    → Holds d n fs
    → name ≢ []
    → IsAt d 0 k fs name text
    → drawing d name ≡ done text
unfolding drawing
drawing_at d n fs name text k holds named at =
    drawing_loop_first 256 d name (entry_block d k) []
      (exist_file_at d fs name holds.files named holds.fit text k at) (omega (arith, at.file.inner))
      (omega (arith, at.file.low))
    ∙ at.file.reads d (record { grown = omega arith; same = λ p a b. refl }) name 256 []
        (omega (arith, at.file.short))

-- On a disk that represents a catalogue, a server finds a name of 1 to 15 bytes exactly when the
-- catalogue has it, and what it collects is the text that the catalogue has.
pub served_refines :
    (d : Disk) (n : ℕ) (fs : Catalogue) (name : Bytes)
    → Holds d n fs
    → name ≢ []
    → length name ≤ 15
    → served d name ≡ done (lookup name fs)
served_refines d n fs name holds named short = elim (Option-cases (lookup name fs)) [
  | inl e ↦ rw (e, exist_ascii-absent d fs name holds.files named holds.fit e) refl
  | inr (text, e) ↦
      let (k, at) = lookup-IsAt d 0 fs name text holds.files e in
      rw
        (
          e,
          exist_ascii_at d fs name holds.files named holds.fit text k at,
          drawing_at d n fs name text k holds named at,
        )
        refl
]

-- ===== src/FileSystem/Catalogue.antt =====
-- What the file system promises: a list of files by name. The disk is its representation.
pub mod Search
pub mod Reading
pub mod Writing
pub mod Mounting
use distributed_ascii_server.Prelude.{
  ℕ, suc, ◌+◌, ◌*◌, ◌/◌, ◌≤◌, ◌<◌, ◌≡◌, Bool, true, false, Option, none, some, List, [], ◌∷◌, ◌++◌,
  length,
}
use distributed_ascii_server.Text.{Bytes, Run, done, ◌>>=◌}
use distributed_ascii_server.Text.Maps.{Map, lookup}
use distributed_ascii_server.FileSystem.Disk.{Disk}
use distributed_ascii_server.FileSystem.Allocate.{IsShaped}
use distributed_ascii_server.FileSystem.Content.{Reads}
use distributed_ascii_server.FileSystem.Entry.{entry_name, entry_block}

-- Names and texts, in the order in which they were written.
abbrev pub Catalogue : Type 0
Catalogue = Map Bytes

-- Writing a file: refused where the name is taken.
abbrev pub add_if_new : Bytes → Bytes → Catalogue → Option Bytes → Bool × Catalogue
add_if_new name text fs none = (true, fs ++ (name, text) ∷ [])
add_if_new name text fs (some old) = (false, fs)

abbrev pub add : Bytes → Bytes → Catalogue → Bool × Catalogue
add name text fs = add_if_new name text fs (lookup name fs)

-- Entry `j` of the directory is a file, and its blocks hold the text.
pub record IsFile (d : Disk) (j : ℕ) (name text : Bytes) : Type 0 where
  pub named : entry_name d j ≡ name
  pub inner : 1 ≤ entry_block d j
  pub low : entry_block d j < 255
  pub short : length text < 254 * 255
  pub reads : Reads 1 d (entry_block d j) text

-- The entries from `j` on are these files, and the rest is free.
abbrev pub Files : Disk → ℕ → Catalogue → Type 0
Files d j [] = (i : ℕ) → j ≤ i → i < 14 → (entry_block d i ≡ 0) × (entry_name d i ≡ [])
Files d j ((name, text) ∷ fs) = IsFile d j name text × Files d (suc j) fs

-- The disk, of `n` blocks, represents the catalogue.
pub record Holds (d : Disk) (n : ℕ) (fs : Catalogue) : Type 0 where
  pub shaped : IsShaped d n n
  pub inner : 1 ≤ n
  pub files : Files d 0 fs
  pub fit : length fs ≤ 14

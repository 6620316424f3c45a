-- ===== src/FileSystem/Catalogue/Mounting.antt =====
-- What the servers have on the disk once they have started.
use distributed_ascii_server.Prelude.{
  ℕ, suc, ◌+◌, ◌*◌, ◌≤◌, ◌<◌, ◌≡◌, ◌≢◌, refl, Option, none, some, List, [], ◌∷◌, ◌++◌, arith,
  length, All, ne→==, lt→ltb, length-append, subst,
}
use distributed_ascii_server.Text.{Bytes, bytes, done, eq_bytes, c_str}
use distributed_ascii_server.Text.Laws.{Free}
use distributed_ascii_server.Text.Maps.{lookup}
use distributed_ascii_server.FileSystem.Disk.{Disk, fread, blank, mount_system}
use distributed_ascii_server.FileSystem.Mount.{write_drawings, mount_server}
use distributed_ascii_server.FileSystem.Catalogue.{Catalogue, add, add_if_new, Holds}
use distributed_ascii_server.FileSystem.Catalogue.Reading.{served, served_refines}
use distributed_ascii_server.FileSystem.Catalogue.Writing.{
  blocks, write_file_refines, write_file_old,
}

empty_name :
    (d : Disk) (pos m : ℕ) → pos < d.size → d.byte pos ≡ 0 → c_str (fread d pos (suc m)) ≡ []
unfolding fread c_str
empty_name d pos m inside nul = rw (lt→ltb pos d.size inside, nul) refl

blank_byte : (p : ℕ) → p ≢ 255 → blank.byte p ≡ 0
unfolding blank
blank_byte p h = rw (ne→== p 255 h) refl

-- The new disk has no file.
pub blank-Holds : Holds blank 1 []
unfolding blank
blank-Holds = record {
  shaped = record { counter = refl; sized = refl; linked = λ i a b. absurd (omega arith) };
  inner = omega arith;
  files = λ i a b. (
    blank_byte (i * 17 + 16) (omega arith),
    empty_name blank (i * 17) 15 (omega arith) (blank_byte (i * 17) (omega arith)),
  );
  fit = omega arith;
}

-- A name that the directory can hold, with a text at its path.
abbrev pub IsReady : (Bytes → Option Bytes) → Bytes → (Bytes → Bytes) → Bytes → Type 0
IsReady files folder texts name =
    (files (folder ++ name) ≡ some (texts name))
    × (length name ≤ 15)
    × (name ≢ [])
    × Free 0 name
    × Free 0 (texts name)

abbrev pub add_all : (Bytes → Bytes) → List Bytes → Catalogue → Catalogue
add_all texts [] fs = fs
add_all texts (name ∷ names) fs = add_all texts names (add name (texts name) fs).1

abbrev pub blocks_all : (Bytes → Bytes) → List Bytes → ℕ
blocks_all texts [] = 0
blocks_all texts (name ∷ names) = blocks (texts name) + blocks_all texts names

length-add_if_new :
    (name text : Bytes) (fs : Catalogue) (old : Option Bytes)
    → length (add_if_new name text fs old).1 ≤ length fs + 1
length-add_if_new name text fs none = omega (arith, length-append {0} fs ((name, text) ∷ []))
length-add_if_new name text fs (some old) = omega arith

-- Writing the drawings one after the other adds each to the catalogue.
pub write_drawings_refines :
    (files : Bytes → Option Bytes) (folder : Bytes) (texts : Bytes → Bytes) (names : List Bytes)
    (d : Disk) (n : ℕ) (fs : Catalogue)
    → All (IsReady files folder texts) names
    → Holds d n fs
    → n + blocks_all texts names ≤ 254
    → length fs + length names ≤ 14
    → (d' : Disk) × (n' : ℕ) × (write_drawings files folder names (some d) ≡ done (some d'))
      × Holds d' n' (add_all texts names fs)
unfolding write_drawings
write_drawings_refines files folder texts [] d n fs ready holds room more = (d, n, refl, holds)
write_drawings_refines files folder texts (name ∷ names) d n fs
      ((at, fits, named, clean_name, clean), ready) holds room more =
    let (d₁, n₁, ran, holds₁, grown) =
      write_file_refines d n fs name (texts name) holds fits named clean_name clean (omega arith)
        (omega arith) in
    let (d₂, n₂, rest, holds₂) =
      write_drawings_refines files folder texts names d₁ n₁ (add name (texts name) fs).1 ready
        holds₁ (omega (arith, grown))
        (omega (arith, length-add_if_new name (texts name) fs (lookup name fs))) in
    (d₂, n₂, rw (at, ran) rest, holds₂)

-- Once its names are on the disk, writing the drawings again changes nothing.
write_drawings_again :
    (files : Bytes → Option Bytes) (folder : Bytes) (texts : Bytes → Bytes) (names : List Bytes)
    (d : Disk) (n : ℕ) (fs : Catalogue)
    → All (IsReady files folder texts) names
    → Holds d n fs
    → All (λ name. lookup name fs ≡ some (texts name)) names
    → write_drawings files folder names (some d) ≡ done (some d)
unfolding write_drawings
write_drawings_again files folder texts [] d n fs ready holds there = refl
write_drawings_again files folder texts (name ∷ names) d n fs
      ((at, fits, named, clean_name, clean), ready) holds (here, there) =
    rw
      (write_file_old d n fs name (texts name) holds fits named clean_name clean (texts name)
        (files (folder ++ name)) here)
      (write_drawings_again files folder texts names d n fs ready holds there)

abbrev pub objetos : Bytes
objetos = bytes "../../Objetos/"

abbrev pub server_names : List Bytes
server_names =
    bytes "Goku.txt"
    ∷ bytes "Gogeta.txt"
    ∷ bytes "Foca.txt"
    ∷ bytes "CocaCola.txt"
    ∷ bytes "Exitante.txt"
    ∷ bytes "GoyoCat.txt"
    ∷ []

abbrev pub listed : (Bytes → Bytes) → List Bytes → Catalogue
listed texts [] = []
listed texts (name ∷ names) = (name, texts name) ∷ listed texts names

listed_lem : (texts : Bytes → Bytes) → add_all texts server_names [] ≡ listed texts server_names
unfolding lookup eq_bytes
listed_lem texts = refl

listed_there :
    (texts : Bytes → Bytes)
    → All (λ name. lookup name (listed texts server_names) ≡ some (texts name)) server_names
unfolding lookup eq_bytes
listed_there texts = (refl, (refl, (refl, (refl, (refl, (refl, tt))))))

-- With no disk before it, the server's start makes one that represents its six drawings: each is
-- served with the text of its file, and no other name of 1 to 15 bytes is. Starting again on that disk changes
-- nothing. The six files can be read, have no NUL, and take at most 253 blocks.
pub mount_server_refines :
    (files : Bytes → Option Bytes) (texts : Bytes → Bytes) (name : Bytes)
    → All (IsReady files objetos texts) server_names
    → blocks_all texts server_names ≤ 253
    → name ≢ []
    → length name ≤ 15
    → (d : Disk) × (mount_server files none ≡ done (some d))
      × (served d name ≡ done (lookup name (listed texts server_names)))
      × (mount_server files (some d) ≡ done (some d))
unfolding mount_server mount_system
mount_server_refines files texts name ready room named short =
    let (d, n, ran, holds) =
      write_drawings_refines files objetos texts server_names blank 1 [] ready blank-Holds
        (omega arith) (omega arith) in
    let holds' : Holds d n (listed texts server_names) =
      subst (Holds d n) (listed_lem texts) holds in
    (
      d,
      ran,
      served_refines d n (listed texts server_names) name holds' named short,
      write_drawings_again files objetos texts server_names d n (listed texts server_names) ready
          holds' (listed_there texts),
    )

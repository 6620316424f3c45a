-- ===== src/FileSystem/WriteFile.antt =====
-- writeFile as a whole: what it returns, and what a server then reads.
use distributed_ascii_server.Prelude.{
  ℕ, suc, ◌+◌, ◌*◌, ◌/◌, ◌≤◌, ◌<◌, ◌≡◌, ◌≢◌, refl, ◌∙◌, true, none, some, [], arith, length, le→ltb,
  ne→==,
}
use distributed_ascii_server.Text.{Bytes, done}
use distributed_ascii_server.Text.Laws.{Free}
use distributed_ascii_server.FileSystem.Disk.{Disk}
use distributed_ascii_server.FileSystem.Blocks.{allocate_content}
use distributed_ascii_server.FileSystem.Directory.{
  exist_ascii, exist_file, write_file, extract_block,
}
use distributed_ascii_server.FileSystem.Drawing.{drawing_loop, drawing}
use distributed_ascii_server.FileSystem.Allocate.{IsShaped}
use distributed_ascii_server.FileSystem.Content.{IsStored, allocate_content-IsStored}
use distributed_ascii_server.FileSystem.NewEntry.{
  IsFirstFree, entered, allocate_in_directory_lem, entered-IsShaped, exist_ascii_after,
  exist_file_after,
}

-- Asking for block 0 of a file asks for its first block.
pub drawing_loop_first :
    (fuel : ℕ) (d : Disk) (name : Bytes) (n : ℕ) (art : Bytes)
    → exist_file d name ≡ some n
    → n ≢ 0
    → n ≢ 255
    → drawing_loop (suc fuel) d name 0 art ≡ drawing_loop (suc fuel) d name n art
unfolding drawing_loop extract_block
drawing_loop_first fuel d name n art e a b = rw (e, ne→== n 0 a, ne→== n 255 b) refl

-- What writeFile returns for a new name, and the disk that it leaves.
pub write_file-IsStored :
    (d : Disk) (n k : ℕ) (name text : Bytes) (shaped : IsShaped d n n) (inner : 1 ≤ n)
    (low : n < 254) (slot : IsFirstFree d k) (fits : length name ≤ 16)
    → length name ≢ 16
    → n * 255 + length text < 254 * 255
    → Free 0 text
    → exist_file d name ≡ none
    → let d₁ = entered d n k name shaped inner low slot fits in
      let d₂ = (allocate_content n (some text) d₁).1 in
      (write_file name (some text) (some d) ≡ done (true, some d₂)) × IsStored d₁ d₂ n text 0
unfolding write_file
write_file-IsStored d n k name text shaped inner low slot fits short room clean absent =
    let stored =
      allocate_content-IsStored text (entered d n k name shaped inner low slot fits) n clean
        (entered-IsShaped d n k name shaped inner low slot fits) inner room in
    (
      rw
          (
            le→ltb 16 (length name) fits,
            ne→== (length name) 16 short,
            absent,
            allocate_in_directory_lem d n k name shaped inner low slot fits,
            stored.0,
          )
          refl,
      stored.1,
    )

-- A drawing that is written to a disk with a free entry and enough free blocks is found again, and
-- what a server reads of it is its text. The disk is shaped as mountSystem and earlier calls leave
-- it, the name is new, not empty, at most 15 bytes long, and no byte of name or text is 0.
pub write_file-drawing :
    (d : Disk) (n k : ℕ) (name text : Bytes)
    → IsShaped d n n
    → 1 ≤ n
    → IsFirstFree d k
    → n * 255 + length text < 254 * 255
    → length name ≤ 15
    → name ≢ []
    → Free 0 name
    → Free 0 text
    → exist_file d name ≡ none
    → (d' : Disk) × (write_file name (some text) (some d) ≡ done (true, some d'))
      × (exist_ascii d' name ≡ true)
      × (drawing d' name ≡ done text)
      × IsShaped d' (n + length text / 255 + 1) (n + length text / 255 + 1)
unfolding drawing
write_file-drawing d n k name text shaped inner slot room short named clean_name clean absent = (
  d',
  written.0,
  exist_ascii_after d n k name shaped inner low slot fits d' clean_name named absent grown
      written.1.kept,
  drawing_loop_first 256 d' name n [] found (omega arith) (omega arith)
      ∙ written.1.reads d' (record { grown = omega arith; same = λ p a b. refl }) name 256 []
          (omega arith),
  written.1.shaped,
)
  where
    low : n < 254
    low = omega arith

    fits : length name ≤ 16
    fits = omega arith

    d₁ : Disk
    d₁ = entered d n k name shaped inner low slot fits

    d' : Disk
    d' = (allocate_content n (some text) d₁).1

    written :
        (write_file name (some text) (some d) ≡ done (true, some d')) × IsStored d₁ d' n text 0
    written =
        write_file-IsStored d n k name text shaped inner low slot fits (omega arith) room clean
          absent

    grown : n * 256 ≤ d'.size
    grown = omega (arith, written.1.shaped.sized)

    found : exist_file d' name ≡ some n
    found =
        exist_file_after d n k name shaped inner low slot fits d' clean_name named absent grown
          written.1.kept

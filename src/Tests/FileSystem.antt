-- ===== src/Tests/FileSystem.antt =====
-- The file system and the text functions at work on a new disk.
use distributed_ascii_server.Prelude.{◌≡◌, refl, true, none, some, arith}
use distributed_ascii_server.Text.{Bytes, bytes, done, eq_bytes, c_str}
use distributed_ascii_server.Text.Split.{split, parts, split-eq-parts}
use distributed_ascii_server.FileSystem.Disk.{Disk, blank, fread}
use distributed_ascii_server.FileSystem.Directory.{exist_ascii, exist_file, write_file}
use distributed_ascii_server.FileSystem.Drawing.{drawing}
use distributed_ascii_server.FileSystem.Allocate.{IsShaped}
use distributed_ascii_server.FileSystem.NewEntry.{IsFirstFree}
use distributed_ascii_server.FileSystem.WriteFile.{write_file-drawing}

abbrev name : Bytes
name = bytes "Goku.txt"

abbrev text : Bytes
text = bytes "(o_o)"

blank-IsShaped : IsShaped blank 1 1
unfolding blank
blank-IsShaped = record { counter = refl; sized = refl; linked = λ i a b. absurd (omega arith) }

blank-IsFirstFree : IsFirstFree blank 0
unfolding blank
blank-IsFirstFree = record {
  reachable = omega arith;
  taken = λ i h. absurd (omega arith);
  free = refl;
}

absent : exist_file blank name ≡ none
unfolding exist_file eq_bytes c_str fread blank
absent = refl

write_file-drawing_example :
    (d' : Disk) × (write_file name (some text) (some blank) ≡ done (true, some d'))
    × (exist_ascii d' name ≡ true)
    × (drawing d' name ≡ done text)
    × IsShaped d' 2 2
write_file-drawing_example =
    write_file-drawing blank 1 0 name text blank-IsShaped (omega arith) blank-IsFirstFree
      (omega arith) (omega arith) (λ e. cc) (omega arith) (omega arith) absent

split-eq-parts_example : split (bytes "GET/Goku") ≡ done (parts (bytes "GET/Goku"))
split-eq-parts_example = split-eq-parts (bytes "GET/Goku")

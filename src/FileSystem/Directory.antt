-- ===== src/FileSystem/Directory.antt =====
-- existFile, existASCII, allocateInDirectory, writeFile and the first branch of extractBlock: the
-- directory, 17 bytes a file in block 0 (16 of the name, one of the first block).
use distributed_ascii_server.Prelude.{
  ℕ, zero, suc, ◌+◌, ◌-◌, Bool, false, not, ◌&&◌, Option, none, some, [], ◌∷◌, ◌++◌, ltb, leb, ◌==◌,
  if◌then◌else◌, length, take, replicate,
}
use distributed_ascii_server.Text.{Bytes, Run, done, fault, eq_bytes, c_str}
use distributed_ascii_server.FileSystem.Disk.{Disk, fread, fwrite}
use distributed_ascii_server.FileSystem.Blocks.{check_block_avaible, allocate_content, block_at}

-- while (strcmp(name, NameFile) && i < SIZEBLOCK): the value of `i` when the loop ends. The stream
-- stands at byte `i`. strcmp of a name of at most 15 bytes stops inside NameFile, which has 16
-- (Entry.eq_bytes_inside). For a longer name that begins with the 16 bytes of an entry without a NUL,
-- strcmp reads behind NameFile: the model has nothing there, and lets the entry's name end.
unfoldable pub search_loop : ℕ → Disk → Bytes → ℕ → Bytes → Option ℕ
search_loop zero d name i name_file = none
search_loop (suc fuel) d name i name_file =
    let rest = search_loop fuel d name (i + 17) (c_str (fread d i 16)) in
    if not (eq_bytes name name_file) && ltb i 256 then rest else some i

-- At most 16 entries start below byte 256.
unfoldable pub search : Disk → Bytes → ℕ
unfolding search_loop
search d name = elim (search_loop 17 d name 0 []) [ some i ↦ i | none ↦ 272 ]

-- existASCII: EXIT_SUCCESS is true.
unfoldable pub exist_ascii : Disk → Bytes → Bool
unfolding search
exist_ascii d name = not (leb 255 (search d name))

-- existFile: the first block, which is the byte before the stream's place. At place 0 the seek fails
-- and the first byte is read.
unfoldable pub exist_file : Disk → Bytes → Option ℕ
unfolding search
exist_file d name = let i = search d name in if leb 255 i then none else some (d.byte (i - 1))

-- extractBlock: `none` is NULL.
unfoldable pub extract_block : Disk → Bytes → ℕ → Option Bytes
unfolding exist_file block_at
extract_block d name number =
    if number == 0
    then elim (exist_file d name) [ none ↦ none | some first ↦ some (block_at d first) ]
    else some (block_at d number)

-- for (i = 0; i < SIZEBLOCK && firstBlock != 0; i += 17): where the stream stands at the end. A read
-- past the end of the disk changes neither the place nor firstBlock.
unfoldable pub entry_loop : ℕ → Disk → ℕ → ℕ → ℕ → Option ℕ
entry_loop zero d i first place = none
entry_loop (suc fuel) d i first place =
    let in_disk = ltb (i + 16) d.size in
    let rest =
      entry_loop fuel d (i + 17) (if in_disk then d.byte (i + 16) else first)
        (if in_disk then i + 17 else i + 16) in
    if ltb i 256 && not (first == 0) then rest else some place

-- The entry is written whether or not the loop found a free one; writeFile calls it with a name of
-- at most 15 bytes.
unfoldable pub allocate_in_directory : Bytes → Disk → ℕ × Disk
unfolding entry_loop
allocate_in_directory name d =
    let place : ℕ = elim (entry_loop 17 d 0 1 0) [ some p ↦ p | none ↦ 272 ] in
    let avaible = check_block_avaible d in
    let d₁ = fwrite avaible.1 (place - 1) (avaible.0 ∷ []) in
    (avaible.0, fwrite d₁ (place - 17) (take 16 (name ++ replicate 16 0)))

-- writeFile; the result tells EXIT_SUCCESS. A name of 16 bytes passes the test of its length, and has
-- no room for its NUL in nameFile: where an entry has the same 16 bytes, strcmp reads behind the
-- buffer, and where none has, strcpy writes behind it.
unfoldable pub write_file : Bytes → Option Bytes → Option Disk → Run (Bool × Option Disk)
write_file name path none = done (false, none)
write_file name path (some d) =
    let entry = allocate_in_directory name d in
    let result = allocate_content entry.0 path entry.1 in
    if ltb 16 (length name)
    then done (false, some d)
    else if length name == 16
    then fault
    else elim (exist_file d name) [
      | some _ ↦ done (false, some d)
      | none ↦ done (result.0, some result.1)
    ]

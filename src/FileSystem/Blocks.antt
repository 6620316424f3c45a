-- ===== src/FileSystem/Blocks.antt =====
-- checkBlockAvaible, extractContent, allocateContent and extractBlock: chains of blocks.
use distributed_ascii_server.Prelude.{
  ℕ, zero, suc, ◌+◌, ◌-◌, ◌*◌, ◌%◌, Bool, true, false, Option, none, some, [], ◌∷◌, ◌++◌, ltb, ◌==◌,
  if◌then◌else◌, length, take, drop, replicate,
}
use distributed_ascii_server.Text.{Bytes}
use distributed_ascii_server.FileSystem.Disk.{
  Disk, fread, fwrite, count_blocks, size_block, data_packet,
}

-- The place of the byte that links block `i` to the next one.
abbrev pub link : ℕ → ℕ
link i = i * 256 + 255

-- The loop of checkBlockAvaible from block `i`, with `rounds` left: the first block whose link is
-- 0, or none where the disk or the loop ends.
unfoldable pub free_block : Disk → ℕ → ℕ → Option ℕ
free_block d i zero = none
free_block d i (suc rounds) =
    let rest = free_block d (suc i) rounds in
    if ltb (link i) d.size then (if d.byte (link i) == 0 then some i else rest) else none

-- The rest of checkBlockAvaible: mark the block found, or else hand out the block that the
-- counter at byte 255 names. EXIT_FAILURE is 1.
unfoldable pub check_block_avaible : Disk → ℕ × Disk
unfolding free_block
check_block_avaible d = elim (free_block d 1 254) [
  | some i ↦ (i, fwrite d (link i) (255 ∷ []))
  | none ↦
      if d.byte 255 == 255 then (1, d) else (d.byte 255, fwrite d 255 ((1 + d.byte 255) % 256 ∷ []))
]

-- What extractContent reads of a drawing's text, and whether it returns 2, for the last read.
unfoldable pub extract_content : Bytes → ℕ → Bytes × Bool
extract_content text read_number =
    let got = take data_packet (drop (read_number * data_packet) text) in
    (got ++ replicate (data_packet - length got) 0, ltb (length got) data_packet)

-- The loop of allocateContent, its first round included: fill `block`, then link it to the next
-- or end the chain by 255. The result tells EXIT_SUCCESS.
unfoldable pub allocate_loop : ℕ → ℕ → ℕ → Bytes → Disk → Bool × Disk
allocate_loop zero index block text d = (false, d)
allocate_loop (suc rounds) index block text d =
    let read = extract_content text index in
    let d₁ = fwrite d (block * size_block) read.0 in
    let avaible = check_block_avaible d₁ in
    let rest =
      allocate_loop rounds (suc index) avaible.0 text
        (fwrite avaible.1 (link block) (avaible.0 ∷ [])) in
    if read.1 then (true, fwrite d₁ (link block) (255 ∷ [])) else rest

-- `path` is what fopen finds: the text of the drawing, or none.
unfoldable pub allocate_content : ℕ → Option Bytes → Disk → Bool × Disk
unfolding allocate_loop
allocate_content first_block none d = (false, d)
allocate_content first_block (some text) d = allocate_loop count_blocks 0 first_block text d

-- extractBlock for a block number other than 0: the 256 bytes of the block. createBlock allocates 255
-- of them, and the last is taken as held behind these. What lies past the end of the disk stays as
-- calloc left it.
unfoldable pub block_at : Disk → ℕ → Bytes
unfolding fread
block_at d number =
    let got = fread d (number * size_block) 256 in got ++ replicate (256 - length got) 0

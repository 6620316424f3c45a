-- ===== src/FileSystem/Chain.antt =====
-- Reading back the chain of blocks that allocateContent wrote.
use distributed_ascii_server.Prelude.{
  ℕ, zero, suc, ◌+◌, ◌-◌, ◌*◌, ◌≤◌, ◌<◌, ◌≡◌, refl, sym, ap, ◌∙◌, inl, inr, some, [], ◌∷◌, ◌++◌,
  append_assoc, append-nil, arith, ltb, length, get_or, set, take, drop, replicate, Bool-cases,
  length-append, lt→ltb, ltb→lt, ne→==, All-take, All-drop,
}
use distributed_ascii_server.Text.{Bytes, c_str}
use distributed_ascii_server.Text.Laws.{Free, c_str_nul}
use distributed_ascii_server.FileSystem.Disk.{Disk, fread}
use distributed_ascii_server.FileSystem.Blocks.{link, extract_content, block_at}
use distributed_ascii_server.FileSystem.Directory.{extract_block}
use distributed_ascii_server.FileSystem.Drawing.{drawing_loop}
use distributed_ascii_server.FileSystem.Allocate.{length-extract_content}

-- A read inside the disk gives the bytes that stand there.
pub fread_lem :
    (d : Disk) (pos : ℕ) (xs : Bytes)
    → pos + length xs ≤ d.size
    → ((p : ℕ) → p < length xs → d.byte (pos + p) ≡ get_or xs p 0)
    → fread d pos (length xs) ≡ xs
unfolding fread
fread_lem d pos [] h k = refl
fread_lem d pos (x ∷ xs) h k =
    let here : d.byte pos ≡ x = ap d.byte (omega arith) ∙ k 0 (omega arith) in
    let rest =
      fread_lem d (suc pos) xs (omega arith)
        (λ p q. ap d.byte (omega arith) ∙ k (suc p) (omega arith)) in
    rw (lt→ltb pos d.size (omega arith), here, rest)

get_or-append : (xs : Bytes) (v p : ℕ) → p < length xs → get_or (xs ++ v ∷ []) p 0 ≡ get_or xs p 0
get_or-append [] v p h = absurd (omega arith)
get_or-append (x ∷ xs) v zero h = refl
get_or-append (x ∷ xs) v (suc p) h = get_or-append xs v p (omega arith)

get_or-append_last : (xs : Bytes) (v : ℕ) → get_or (xs ++ v ∷ []) (length xs) 0 ≡ v
get_or-append_last [] v = refl
get_or-append_last (x ∷ xs) v = get_or-append_last xs v

set-append_last : (xs : Bytes) (v w : ℕ) → set (xs ++ v ∷ []) (length xs) w ≡ xs ++ w ∷ []
set-append_last [] v w = refl
set-append_last (x ∷ xs) v w = rw (set-append_last xs v w)

-- A block holds its text and, in its last byte, its link.
block_at_lem :
    (d : Disk) (n v : ℕ) (data_bytes : Bytes)
    → length data_bytes ≡ 255
    → (n + 1) * 256 ≤ d.size
    → ((p : ℕ) → p < 255 → d.byte (n * 256 + p) ≡ get_or data_bytes p 0)
    → d.byte (link n) ≡ v
    → block_at d n ≡ data_bytes ++ v ∷ []
unfolding block_at
block_at_lem d n v data_bytes full inside same linked = rw (whole, size) (append-nil _)
  where
    size : length (data_bytes ++ v ∷ []) ≡ 256
    size = omega (arith, length-append {0} data_bytes (v ∷ []))

    at : (p : ℕ) → p < 256 → d.byte (n * 256 + p) ≡ get_or (data_bytes ++ v ∷ []) p 0
    at p h = elim (Bool-cases (ltb p 255)) [
      | inl lt ↦
          same p (ltb→lt _ _ lt)
          ∙ sym (get_or-append data_bytes v p (omega (arith, ltb→lt p 255 lt)))
      | inr ge ↦
          let e : p ≡ 255 = ground arith in
          ap (λ (q : ℕ). d.byte (n * 256 + q)) e
          ∙ linked
          ∙ sym (get_or-append_last data_bytes v)
          ∙ ap (λ (q : ℕ). get_or (data_bytes ++ v ∷ []) q 0) (full ∙ sym e)
    ]

    whole : fread d (n * 256) 256 ≡ data_bytes ++ v ∷ []
    whole =
        ap (fread d (n * 256)) (sym size)
        ∙ fread_lem d (n * 256) (data_bytes ++ v ∷ []) (omega (arith, size))
            (λ p h. at p (omega (arith, size)))

c_str_padded : (got : Bytes) (k : ℕ) → Free 0 got → c_str ((got ++ replicate k 0) ++ 0 ∷ []) ≡ got
c_str_padded got zero h = rw append-nil (c_str_nul got [] h)
c_str_padded got (suc k) h = rw append_assoc (c_str_nul got (replicate k 0 ++ 0 ∷ []) h)

-- One round of the reading loop at a block that an earlier round of the writing loop filled.
module _ (d : Disk) (name : Bytes) (n v fuel : ℕ) (text : Bytes) (index : ℕ) (inner : 1 ≤ n)
    (low : n < 255) (inside : (n + 1) * 256 ≤ d.size)
    (same : (p : ℕ) → p < 255 → d.byte (n * 256 + p) ≡ get_or (extract_content text index).0 p 0)
    (linked : d.byte (link n) ≡ v) (clean : Free 0 text) where
  abbrev piece : Bytes
  piece = take 255 (drop (index * 255) text)

  abbrev padded : Bytes
  padded = piece ++ replicate (255 - length piece) 0

  full : length padded ≡ 255
  unfolding extract_content
  full = length-extract_content text index

  block_read : block_at d n ≡ padded ++ v ∷ []
  unfolding extract_content
  block_read = block_at_lem d n v padded full inside same linked

  next_read : get_or (padded ++ v ∷ []) 255 0 ≡ v
  next_read = ap (λ (q : ℕ). get_or (padded ++ v ∷ []) q 0) (sym full) ∙ get_or-append_last padded v

  text_read : c_str (set (padded ++ v ∷ []) 255 0) ≡ piece
  text_read =
      ap (λ (q : ℕ). c_str (set (padded ++ v ∷ []) q 0)) (sym full)
      ∙ ap c_str (set-append_last padded v 0)
      ∙ c_str_padded piece (255 - length piece)
          (All-take _ 255 _ (All-drop _ (index * 255) text clean))

  extract_read : extract_block d name n ≡ some (padded ++ v ∷ [])
  unfolding extract_block
  extract_read = rw (ne→== n 0 (omega arith), block_read)

  pub drawing_loop_round :
      (art : Bytes)
      → drawing_loop (suc fuel) d name n art ≡ drawing_loop fuel d name v (art ++ piece)
  unfolding drawing_loop
  drawing_loop_round art = rw (ne→== n 255 (omega arith), extract_read, next_read, text_read) refl

-- ===== src/FileSystem/Allocate.antt =====
-- What allocateContent leaves on the disk: the blocks that it fills, linked in order, and the rest
-- as it was.
use distributed_ascii_server.Prelude.{
  ℕ, zero, suc, ◌+◌, ◌-◌, ◌*◌, ◌%◌, ◌≤◌, ◌<◌, ◌≡◌, ◌≢◌, refl, sym, ap, ◌∙◌, inl, inr, none, [], ◌∷◌,
  arith, ltb, length, get_or, take, drop, replicate, Bool-cases, length-append, length-take,
  length-replicate, ltb→lt,
}
use distributed_ascii_server.Text.{Bytes}
use distributed_ascii_server.FileSystem.Disk.{
  Disk, fwrite, byte-fwrite_in, byte-fwrite_below, size-fwrite, byte-put_self, byte-put_ne,
  size-put,
}
use distributed_ascii_server.FileSystem.Blocks.{
  link, free_block, check_block_avaible, extract_content,
}

-- `n` whole blocks, the next one to hand out is `c`, and every block but the directory is in use.
pub record IsShaped (d : Disk) (c n : ℕ) : Type 0 where
  pub counter : d.byte 255 ≡ c
  pub sized : d.size ≡ n * 256
  pub linked : (i : ℕ) → 1 ≤ i → i < n → d.byte (link i) ≢ 0

pub free_block-none :
    (d : Disk) (n i rounds : ℕ)
    → ((j : ℕ) → i ≤ j → j < n → d.byte (link j) ≢ 0)
    → d.size ≤ link n
    → free_block d i rounds ≡ none
unfolding free_block
free_block-none d n i zero h k = refl
free_block-none d n i (suc rounds) h k = elim (Bool-cases (ltb i n)) [
  | inl lt ↦
      ground (arith, h i, free_block-none d n (suc i) rounds (λ j a b. h j (omega arith) b) k)
  | inr ge ↦ ground arith
]

pub length-extract_content :
    (text : Bytes) (index : ℕ) → length (extract_content text index).0 ≡ 255
unfolding extract_content
length-extract_content text index =
    let got = take 255 (drop (index * 255) text) in
    omega (
      arith,
      length-append {0} got (replicate (255 - length got) 0),
      length-replicate {0} {A = ℕ} (255 - length got) 0,
      length-take {0} 255 (drop (index * 255) text),
    )

module _ (d : Disk) (n : ℕ) (data_bytes : Bytes) (shaped : IsShaped d (n + 1) n) (pos : 1 ≤ n)
    (room : n < 254) (full : length data_bytes ≡ 255) where
  -- The disk once block `n` has its text, and once it is linked to the block after it.
  abbrev pub filled : Disk
  filled = fwrite d (n * 256) data_bytes

  abbrev pub linked_on : Disk
  linked_on = fwrite (fwrite filled 255 ((1 + (n + 1)) % 256 ∷ [])) (link n) ((n + 1) ∷ [])

  size-filled : filled.size ≡ n * 256 + 255
  size-filled = omega (arith, size-fwrite d (n * 256) data_bytes, shaped.sized)

  filled_old : (p : ℕ) → p < n * 256 → filled.byte p ≡ d.byte p
  filled_old p h = byte-fwrite_below d (n * 256) data_bytes p h (omega (arith, shaped.sized))

  free-filled : free_block filled 1 254 ≡ none
  free-filled =
      free_block-none filled n 1 254
        (λ j a b. rw (filled_old (link j) (omega arith)) (shaped.linked j a b))
        (omega (arith, size-filled))

  pub check-filled :
      check_block_avaible filled ≡ (n + 1, fwrite filled 255 ((1 + (n + 1)) % 256 ∷ []))
  unfolding check_block_avaible
  check-filled =
      rw (free-filled, check_block_avaible)
        (ground (arith, filled_old 255 (omega arith), shaped.counter))

  -- The counter is written, then the link.
  abbrev counted : Disk
  counted = fwrite filled 255 ((1 + (n + 1)) % 256 ∷ [])

  size-counted : counted.size ≡ n * 256 + 255
  size-counted = omega (arith, size-put filled 255 ((1 + (n + 1)) % 256), size-filled)

  pub size-linked_on : linked_on.size ≡ (n + 1) * 256
  size-linked_on = omega (arith, size-put counted (link n) (n + 1), size-counted)

  linked_on_kept : (p : ℕ) → p < n * 256 + 255 → p ≢ 255 → linked_on.byte p ≡ filled.byte p
  linked_on_kept p h k =
      byte-put_ne counted (link n) (n + 1) p (omega arith) (omega (arith, size-counted))
      ∙ byte-put_ne filled 255 ((1 + (n + 1)) % 256) p k (omega (arith, size-filled))

  -- What the round leaves alone, and what it writes.
  pub linked_on_old : (p : ℕ) → p < n * 256 → p ≢ 255 → linked_on.byte p ≡ d.byte p
  linked_on_old p h k = linked_on_kept p (omega arith) k ∙ filled_old p h

  pub linked_on_data : (p : ℕ) → p < 255 → linked_on.byte (n * 256 + p) ≡ get_or data_bytes p 0
  linked_on_data p h =
      let e : n * 256 + p - n * 256 ≡ p = omega arith in
      linked_on_kept (n * 256 + p) (omega arith) (omega arith)
      ∙ byte-fwrite_in d (n * 256) data_bytes (n * 256 + p) (omega arith) (omega arith)
      ∙ ap (λ (i : ℕ). get_or data_bytes i 0) e

  pub linked_on_link : linked_on.byte (link n) ≡ n + 1
  linked_on_link = byte-put_self counted (link n) (n + 1)

  linked_on_counter : linked_on.byte 255 ≡ n + 1 + 1
  linked_on_counter =
      byte-put_ne counted (link n) (n + 1) 255 (omega arith) (omega (arith, size-counted))
      ∙ byte-put_self filled 255 ((1 + (n + 1)) % 256)
      ∙ omega arith

  linked_on_used : (i : ℕ) → 1 ≤ i → i < n + 1 → linked_on.byte (link i) ≢ 0
  linked_on_used i a b e = elim (Bool-cases (ltb i n)) [
    | inl lt ↦
        shaped.linked i a (ltb→lt _ _ lt)
          (sym (linked_on_old (link i) (omega (arith, ltb→lt i n lt)) (omega arith)) ∙ e)
    | inr ge ↦
        let same : i ≡ n = ground arith in
        absurd
          (omega (arith, linked_on_link, sym (ap (λ (j : ℕ). linked_on.byte (link j)) same) ∙ e))
  ]

  pub linked_on-IsShaped : IsShaped linked_on (n + 1 + 1) (n + 1)
  linked_on-IsShaped = record {
    counter = linked_on_counter;
    sized = size-linked_on;
    linked = linked_on_used;
  }

  -- The last block of a chain.
  abbrev pub ended : Disk
  ended = fwrite filled (link n) (255 ∷ [])

  size-ended : ended.size ≡ (n + 1) * 256
  size-ended = omega (arith, size-put filled (link n) 255, size-filled)

  ended_kept : (p : ℕ) → p < n * 256 + 255 → ended.byte p ≡ filled.byte p
  ended_kept p h = byte-put_ne filled (link n) 255 p (omega arith) (omega (arith, size-filled))

  pub ended_old : (p : ℕ) → p < n * 256 → ended.byte p ≡ d.byte p
  ended_old p h = ended_kept p (omega arith) ∙ filled_old p h

  pub ended_data : (p : ℕ) → p < 255 → ended.byte (n * 256 + p) ≡ get_or data_bytes p 0
  ended_data p h =
      let e : n * 256 + p - n * 256 ≡ p = omega arith in
      ended_kept (n * 256 + p) (omega arith)
      ∙ byte-fwrite_in d (n * 256) data_bytes (n * 256 + p) (omega arith) (omega arith)
      ∙ ap (λ (i : ℕ). get_or data_bytes i 0) e

  pub ended_link : ended.byte (link n) ≡ 255
  ended_link = byte-put_self filled (link n) 255

  ended_used : (i : ℕ) → 1 ≤ i → i < n + 1 → ended.byte (link i) ≢ 0
  ended_used i a b e = elim (Bool-cases (ltb i n)) [
    | inl lt ↦
        shaped.linked i a (ltb→lt _ _ lt)
          (sym (ended_old (link i) (omega (arith, ltb→lt i n lt))) ∙ e)
    | inr ge ↦
        let same : i ≡ n = ground arith in
        absurd (omega (arith, ended_link, sym (ap (λ (j : ℕ). ended.byte (link j)) same) ∙ e))
  ]

  pub ended-IsShaped : IsShaped ended (n + 1) (n + 1)
  ended-IsShaped = record {
    counter = ended_old 255 (omega arith) ∙ shaped.counter;
    sized = size-ended;
    linked = ended_used;
  }

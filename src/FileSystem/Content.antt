-- ===== src/FileSystem/Content.antt =====
-- A drawing that allocateContent stores is read back whole.
use distributed_ascii_server.Prelude.{
  ℕ, zero, suc, ◌+◌, ◌*◌, ◌/◌, ◌≤◌, ◌<◌, ◌≡◌, ◌≢◌, refl, sym, ap, ◌∙◌, inl, inr, true, some, ◌++◌,
  append_assoc, arith, ltb, length, take, drop, Bool-cases, length-take, length-drop, lt→ltb,
  ltb→lt, ltb→le, le→ltb, take_all, take-append-drop, drop-drop, subst, max,
}
use distributed_ascii_server.Text.{Bytes, done}
use distributed_ascii_server.Text.Laws.{Free}
use distributed_ascii_server.FileSystem.Disk.{Disk}
use distributed_ascii_server.FileSystem.Blocks.{
  link, extract_content, allocate_loop, allocate_content,
}
use distributed_ascii_server.FileSystem.Drawing.{drawing_loop}
use distributed_ascii_server.FileSystem.Allocate.{
  IsShaped, length-extract_content, linked_on, ended, check-filled, linked_on_old, linked_on_data,
  linked_on_link, linked_on-IsShaped, ended_old, ended_data, ended_link, ended-IsShaped,
}
use distributed_ascii_server.FileSystem.Chain.{drawing_loop_round}

-- What is left of the text at read `index`.
abbrev pub left : Bytes → ℕ → Bytes
left text index = drop (index * 255) text

-- Disk `e` has what `d` holds from block `n` on; it may be larger, and differ before that block.
pub record IsKept (n : ℕ) (d e : Disk) : Type 0 where
  pub grown : d.size ≤ e.size
  pub same : (p : ℕ) → n * 256 ≤ p → p < d.size → e.byte p ≡ d.byte p

-- From block `n` on, `d` and every disk that keeps these blocks hold a chain with this text.
abbrev pub Reads : ℕ → Disk → ℕ → Bytes → Type 0
Reads n d first text =
    (e : Disk)
    → IsKept n d e
    → (name : Bytes) (fuel : ℕ) (art : Bytes) → length text < fuel * 255
    → drawing_loop (suc fuel) e name first art ≡ done (art ++ text)

-- How `d'` follows from `d` once the text from read `index` on is stored from block `n`.
pub record IsStored (d d' : Disk) (n : ℕ) (text : Bytes) (index : ℕ) : Type 0 where
  pub shaped :
      IsShaped d' (n + length (left text index) / 255 + 1) (n + length (left text index) / 255 + 1)
  pub kept : (p : ℕ) → p < n * 256 → p ≢ 255 → d'.byte p ≡ d.byte p
  pub reads : Reads n d' n (left text index)

module _ (text : Bytes) (clean : Free 0 text) (d : Disk) (n index : ℕ)
    (shaped : IsShaped d (n + 1) n) (inner : 1 ≤ n) (low : n < 254) where
  abbrev read : Bytes
  read = (extract_content text index).0

  full : length read ≡ 255
  full = length-extract_content text index

  abbrev after_last : Disk
  after_last = ended d n read shaped inner low full

  abbrev after_more : Disk
  after_more = linked_on d n read shaped inner low full

  left-suc : left text (suc index) ≡ drop 255 (left text index)
  left-suc = ap (λ (k : ℕ). drop k text) (omega arith) ∙ sym (drop-drop 255 (index * 255) text)

  length-left-suc : length (left text (suc index)) + 255 ≡ max 255 (length (left text index))
  length-left-suc =
      omega (arith, ap (λ (t : Bytes). length t) left-suc, length-drop {0} 255 (left text index))

  last-Reads : length (left text index) < 255 → Reads n after_last n (left text index)
  unfolding drawing_loop
  last-Reads short e kept name zero art h = absurd (omega arith)
  last-Reads short e kept name (suc fuel) art h =
      let sized = (ended-IsShaped d n read shaped inner low full).sized in
      drawing_loop_round e name n 255 (suc fuel) text index inner (omega arith)
        (omega (arith, kept.grown, sized))
        (λ p q.
          kept.same (n * 256 + p) (omega arith) (omega (arith, sized))
          ∙ ended_data d n read shaped inner low full p q)
        (kept.same (link n) (omega arith) (omega (arith, sized))
          ∙ ended_link d n read shaped inner low full)
        clean art
      ∙ ap (λ (t : Bytes). done (art ++ t)) (take_all 255 (left text index) (omega arith))

  -- The last read is the one that comes out short.
  IsStored-last : length (left text index) < 255 → IsStored d after_last n text index
  IsStored-last short = record {
    shaped =
        subst (λ (m : ℕ). IsShaped after_last m m) (omega arith)
          (ended-IsShaped d n read shaped inner low full);
    kept = λ p h k. ended_old d n read shaped inner low full p h;
    reads = last-Reads short;
  }

  module _ (long : 255 ≤ length (left text index)) (d' : Disk)
      (s : IsStored after_more d' (n + 1) text (suc index)) where
    more-Reads : Reads n d' n (left text index)
    more-Reads e kept name zero art h = absurd (omega arith)
    more-Reads e kept name (suc fuel) art h =
        let kept_more : IsKept (n + 1) d' e = record {
          grown = kept.grown;
          same = λ p a b. kept.same p (omega arith) b;
        } in
        drawing_loop_round e name n (n + 1) (suc fuel) text index inner (omega arith)
          (omega (arith, kept.grown, s.shaped.sized))
          (λ p q.
            kept.same (n * 256 + p) (omega arith) (omega (arith, s.shaped.sized))
            ∙ s.kept (n * 256 + p) (omega arith) (omega arith)
            ∙ linked_on_data d n read shaped inner low full p q)
          (kept.same (link n) (omega arith) (omega (arith, s.shaped.sized))
            ∙ s.kept (link n) (omega arith) (omega arith)
            ∙ linked_on_link d n read shaped inner low full)
          clean art
        ∙ s.reads e kept_more name fuel (art ++ take 255 (left text index))
            (omega (arith, length-left-suc))
        ∙ ap done (
            append_assoc art _ _
            ∙ ap (λ (t : Bytes). art ++ t)
                (ap (λ (t : Bytes). take 255 (left text index) ++ t) left-suc
                  ∙ take-append-drop 255 (left text index)))

    IsStored-more : IsStored d d' n text index
    IsStored-more = record {
      shaped = subst (λ (m : ℕ). IsShaped d' m m) (omega (arith, length-left-suc)) s.shaped;
      kept = λ p h k. s.kept p (omega arith) k ∙ linked_on_old d n read shaped inner low full p h k;
      reads = more-Reads;
    }

  step_last :
      (rounds : ℕ)
      → length (left text index) < 255
      → allocate_loop (suc rounds) index n text d ≡ (true, after_last)
  unfolding allocate_loop extract_content
  step_last rounds short =
      rw
        (lt→ltb (length (take 255 (left text index))) 255
          (omega (arith, length-take {0} 255 (left text index))))
        refl

  step_more :
      (rounds : ℕ)
      → 255 ≤ length (left text index)
      → allocate_loop (suc rounds) index n text d
        ≡ allocate_loop rounds (suc index) (n + 1) text after_more
  unfolding allocate_loop extract_content
  step_more rounds long =
      rw
        (
          le→ltb (length (take 255 (left text index))) 255
              (omega (arith, length-take {0} 255 (left text index))),
          check-filled d n (unfold extract_content in read) shaped inner low full,
        )
        refl

-- Enough rounds and enough blocks: the loop succeeds and stores what is left of the text.
pub allocate_loop-IsStored :
    (rounds : ℕ) (text : Bytes) (d : Disk) (n index : ℕ)
    → Free 0 text
    → IsShaped d (n + 1) n
    → 1 ≤ n
    → n * 255 + length (left text index) < 254 * 255
    → length (left text index) < rounds * 255
    → ((allocate_loop rounds index n text d).0 ≡ true)
      × IsStored d (allocate_loop rounds index n text d).1 n text index
allocate_loop-IsStored zero text d n index clean shaped inner room enough = absurd (omega arith)
allocate_loop-IsStored (suc rounds) text d n index clean shaped inner room enough =
    elim (Bool-cases (ltb (length (left text index)) 255)) [
      | inl lt ↦
          let short = ltb→lt _ _ lt in
          rw (step_last text clean d n index shaped inner (omega arith) rounds short)
            (refl, IsStored-last text clean d n index shaped inner (omega arith) short)
      | inr ge ↦
          let long = ltb→le _ _ ge in
          let length_suc = length-left-suc text clean d n index shaped inner (omega arith) in
          let rest =
            allocate_loop-IsStored rounds text
              (after_more text clean d n index shaped inner (omega arith)) (n + 1) (suc index) clean
              (linked_on-IsShaped d n (extract_content text index).0 shaped inner (omega arith)
                (length-extract_content text index))
              (omega arith) (omega (arith, length_suc)) (omega (arith, length_suc)) in
          rw (step_more text clean d n index shaped inner (omega arith) rounds long)
            (rest.0, IsStored-more text clean d n index shaped inner (omega arith) long _ rest.1)
    ]

-- A whole drawing, on a disk whose blocks from the first `n` on are free.
pub allocate_content-IsStored :
    (text : Bytes) (d : Disk) (n : ℕ)
    → Free 0 text
    → IsShaped d (n + 1) n
    → 1 ≤ n
    → n * 255 + length text < 254 * 255
    → ((allocate_content n (some text) d).0 ≡ true)
      × IsStored d (allocate_content n (some text) d).1 n text 0
unfolding allocate_content
allocate_content-IsStored text d n clean shaped inner room =
    allocate_loop-IsStored 255 text d n 0 clean shaped inner room (omega arith)

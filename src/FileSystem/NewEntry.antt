-- ===== src/FileSystem/NewEntry.antt =====
-- allocateInDirectory: the entry that it writes, and what it leaves of the disk.
use distributed_ascii_server.Prelude.{
  ℕ, zero, suc, ◌+◌, ◌-◌, ◌*◌, ◌%◌, ◌≤◌, ◌<◌, ◌≡◌, ◌≢◌, refl, sym, ap, ◌∙◌, ◌⊎◌, inl, inr, true,
  none, some, [], ◌∷◌, ◌++◌, arith, length, get_or, take, replicate, length-append, length-take,
  lt→ltb, lt→leb, ne→==, Bool-cases, ltb, ltb→lt, ltb→le,
}
use distributed_ascii_server.Text.{Bytes, eq_bytes, c_str}
use distributed_ascii_server.Text.Laws.{Free, eq_bytes_refl, eq_bytes-ne}
use distributed_ascii_server.FileSystem.Disk.{
  Disk, fread, fwrite, byte-fwrite_in, byte-fwrite_below, byte-fwrite_above, size-fwrite,
  byte-put_self, byte-put_ne, size-put,
}
use distributed_ascii_server.FileSystem.Blocks.{link, check_block_avaible}
use distributed_ascii_server.FileSystem.Directory.{
  search, exist_ascii, exist_file, entry_loop, allocate_in_directory,
}
use distributed_ascii_server.FileSystem.Allocate.{IsShaped, free_block-none}
use distributed_ascii_server.FileSystem.Chain.{fread_lem}
use distributed_ascii_server.FileSystem.Entry.{
  entry_name, entry_block, search_loop_found, exist_file_missed, entry_loop_free,
}

-- Entry `k` is the first free entry of the directory, and one that existFile can reach.
pub record IsFirstFree (d : Disk) (k : ℕ) : Type 0 where
  pub reachable : k < 14
  pub taken : (i : ℕ) → i < k → entry_block d i ≢ 0
  pub free : entry_block d k ≡ 0

pub fread-cong :
    (d d' : Disk) (pos m : ℕ)
    → pos + m ≤ d.size
    → pos + m ≤ d'.size
    → ((p : ℕ) → pos ≤ p → p < pos + m → d'.byte p ≡ d.byte p)
    → fread d' pos m ≡ fread d pos m
unfolding fread
fread-cong d d' pos zero a b h = refl
fread-cong d d' pos (suc m) a b h =
    rw
      (
        lt→ltb pos d.size (omega arith),
        lt→ltb pos d'.size (omega arith),
        h pos (omega arith) (omega arith),
        fread-cong d d' (suc pos) m (omega arith) (omega arith)
            (λ p q r. h p (omega arith) (omega arith)),
      )
      refl

pub padded_name :
    (name : Bytes) (m j : ℕ)
    → length name ≤ m
    → Free 0 name
    → c_str (take m (name ++ replicate j 0)) ≡ name
unfolding c_str
padded_name [] zero j fits clean = refl
padded_name [] (suc m) zero fits clean = refl
padded_name [] (suc m) (suc j) fits clean = refl
padded_name (x ∷ xs) zero j fits clean = absurd (omega arith)
padded_name (x ∷ xs) (suc m) j fits clean =
    rw (ne→== x 0 clean.0, padded_name xs m j (omega arith) clean.1) refl

module _ (d : Disk) (n k : ℕ) (name : Bytes) (shaped : IsShaped d n n) (inner : 1 ≤ n)
    (room : n < 254) (slot : IsFirstFree d k) (fits : length name ≤ 16) where
  pub size_big : 256 ≤ d.size
  size_big = omega (arith, shaped.sized)

  abbrev pub counted : Disk
  counted = fwrite d 255 ((1 + n) % 256 ∷ [])

  abbrev pub blocked : Disk
  blocked = fwrite counted (k * 17 + 16) (n ∷ [])

  abbrev pub stored_name : Bytes
  stored_name = take 16 (name ++ replicate 16 0)

  abbrev pub entered : Disk
  entered = fwrite blocked (k * 17) stored_name

  pub length-stored_name : length stored_name ≡ 16
  length-stored_name =
      omega (
        arith,
        length-take {0} 16 (name ++ replicate 16 0),
        length-append {0} name (replicate 16 0),
      )

  pub check_counted : check_block_avaible d ≡ (n, counted)
  unfolding check_block_avaible
  check_counted =
      rw
        (
          free_block-none d n 1 254 shaped.linked (omega (arith, shaped.sized)),
          check_block_avaible,
          shaped.counter,
          ne→== n 255 (omega arith),
        )
        refl

  pub size-counted : counted.size ≡ n * 256
  size-counted = omega (arith, size-put d 255 ((1 + n) % 256), shaped.sized)

  pub size-blocked : blocked.size ≡ n * 256
  size-blocked = omega (arith, size-put counted (k * 17 + 16) n, size-counted, slot.reachable)

  pub size-entered : entered.size ≡ n * 256
  size-entered = omega (
    arith,
    size-fwrite blocked (k * 17) stored_name,
    size-blocked,
    slot.reachable,
    length-stored_name,
  )

  pub place_free : entry_loop 17 d 0 1 0 ≡ some (k * 17 + 17)
  place_free =
      entry_loop_free d k 17 0 1 0 (omega arith) (λ i a b. slot.taken i b) slot.free (omega arith)
        (omega (arith, slot.reachable)) size_big (omega (arith, slot.reachable))

  pub allocate_in_directory_lem : allocate_in_directory name d ≡ (n, entered)
  unfolding allocate_in_directory
  allocate_in_directory_lem =
      let a : k * 17 + 17 - 1 ≡ k * 17 + 16 = omega arith in
      let b : k * 17 + 17 - 17 ≡ k * 17 = omega arith in rw (place_free, check_counted, a, b) refl

  -- The entry's 17 bytes and the counter are all that the call writes.
  pub entered_old :
      (p : ℕ) → p < k * 17 ⊎ k * 17 + 17 ≤ p → p ≢ 255 → p < n * 256 → entered.byte p ≡ d.byte p
  entered_old p (inl low) c big =
      byte-fwrite_below blocked (k * 17) stored_name p low (omega (arith, size-blocked))
      ∙ byte-put_ne counted (k * 17 + 16) n p (omega arith) (omega (arith, size-counted))
      ∙ byte-put_ne d 255 ((1 + n) % 256) p c (omega (arith, shaped.sized))
  entered_old p (inr high) c big =
      byte-fwrite_above blocked (k * 17) stored_name p (omega (arith, length-stored_name))
        (omega (arith, size-blocked))
      ∙ byte-put_ne counted (k * 17 + 16) n p (omega arith) (omega (arith, size-counted))
      ∙ byte-put_ne d 255 ((1 + n) % 256) p c (omega (arith, shaped.sized))

  pub entered_counter : entered.byte 255 ≡ n + 1
  entered_counter =
      byte-fwrite_above blocked (k * 17) stored_name 255
        (omega (arith, length-stored_name, slot.reachable)) (omega (arith, size-blocked))
      ∙ byte-put_ne counted (k * 17 + 16) n 255 (omega (arith, slot.reachable))
          (omega (arith, size-counted))
      ∙ byte-put_self d 255 ((1 + n) % 256)
      ∙ omega arith

  pub entered_block : entry_block entered k ≡ n
  entered_block =
      byte-fwrite_above blocked (k * 17) stored_name (k * 17 + 16)
        (omega (arith, length-stored_name)) (omega (arith, size-blocked, slot.reachable))
      ∙ byte-put_self counted (k * 17 + 16) n

  pub entered_bytes : (p : ℕ) → p < 16 → entered.byte (k * 17 + p) ≡ get_or stored_name p 0
  entered_bytes p h =
      let e : k * 17 + p - k * 17 ≡ p = omega arith in
      byte-fwrite_in blocked (k * 17) stored_name (k * 17 + p) (omega arith)
        (omega (arith, length-stored_name))
      ∙ ap (λ (q : ℕ). get_or stored_name q 0) e

  pub entered_linked : (i : ℕ) → 1 ≤ i → i < n → entered.byte (link i) ≢ 0
  entered_linked i a b e = shaped.linked i a b (
      sym (entered_old (link i) (inr (omega (arith, slot.reachable))) (omega arith) (omega arith))
      ∙ e)

  pub entered-IsShaped : IsShaped entered (n + 1) n
  entered-IsShaped = record {
    counter = entered_counter;
    sized = size-entered;
    linked = entered_linked;
  }

  -- What a disk shows of the file once the rest of the call has left the directory alone.
  module _ (d' : Disk) (clean : Free 0 name) (named : name ≢ []) (absent : exist_file d name ≡ none)
      (grown : n * 256 ≤ d'.size)
      (kept : (p : ℕ) → p < n * 256 → p ≢ 255 → d'.byte p ≡ entered.byte p) where
    pub name_here : entry_name d' k ≡ name
    name_here =
        ap (λ (m : ℕ). c_str (fread d' (k * 17) m)) (sym length-stored_name)
        ∙ ap c_str (
            fread_lem d' (k * 17) stored_name (omega (arith, length-stored_name, slot.reachable))
              (λ p q.
                kept (k * 17 + p) (omega (arith, length-stored_name, slot.reachable))
                  (omega (arith, length-stored_name, slot.reachable))
                ∙ entered_bytes p (omega (arith, length-stored_name))))
        ∙ padded_name name 16 16 fits clean

    -- The other entries that existFile reaches stay as they were.
    pub name_other : (i : ℕ) → i < 14 → i ≢ k → entry_name d' i ≡ entry_name d i
    name_other i small differ = ap c_str (
        fread-cong d d' (i * 17) 16 (omega (arith, shaped.sized)) (omega arith) (λ p a b.
          kept p (omega arith) (omega arith)
          ∙ entered_old p
              (elim (Bool-cases (ltb i k)) [
                | inl lt ↦ inl (omega (arith, ltb→lt i k lt))
                | inr ge ↦ inr (omega (arith, ltb→le i k ge))
              ])
              (omega arith) (omega arith)))

    pub block_other : (i : ℕ) → i < 14 → i ≢ k → entry_block d' i ≡ entry_block d i
    block_other i small differ =
        kept (i * 17 + 16) (omega arith) (omega arith)
        ∙ entered_old (i * 17 + 16)
            (elim (Bool-cases (ltb i k)) [
              | inl lt ↦ inl (omega (arith, ltb→lt i k lt))
              | inr ge ↦ inr (omega (arith, ltb→le i k ge))
            ])
            (omega arith) (omega arith)

    pub search_after : search d' name ≡ k * 17 + 17
    unfolding search
    search_after =
        rw
          (
            search_loop_found d' name k 17 0 [] (eq_bytes-ne name [] named)
                (λ i a b.
                  ap (eq_bytes name) (name_other i (omega (arith, slot.reachable)) (omega arith))
                  ∙ exist_file_missed d name i absent (omega (arith, slot.reachable)))
                (ap (eq_bytes name) name_here ∙ eq_bytes_refl name) (omega arith)
                (omega (arith, slot.reachable)) (omega (arith, slot.reachable)),
            search,
          )
          refl

    pub exist_file_after : exist_file d' name ≡ some n
    unfolding exist_file
    exist_file_after =
        let e : k * 17 + 17 - 1 ≡ k * 17 + 16 = omega arith in
        rw (search_after, lt→leb 255 (k * 17 + 17) (omega (arith, slot.reachable)), e)
          (ap some (
            kept (k * 17 + 16) (omega (arith, slot.reachable)) (omega (arith, slot.reachable))
            ∙ entered_block))

    pub exist_ascii_after : exist_ascii d' name ≡ true
    unfolding exist_ascii
    exist_ascii_after = rw search_after (ground (arith, slot.reachable))

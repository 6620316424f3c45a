-- ===== src/FileSystem/Entry.antt =====
-- The entries of the directory: finding a name, finding the free entry, and where strcmp stops.
use distributed_ascii_server.Prelude.{
  ℕ, zero, suc, ◌+◌, ◌-◌, ◌*◌, ◌≤◌, ◌<◌, ◌≡◌, ◌≢◌, refl, ap, ◌∙◌, inl, inr, true, false, not, ◌&&◌,
  none, some, [], ◌∷◌, ◌++◌, length, ◌==◌, arith, ltb, Bool-cases, lt→ltb, ltb→lt, ltb→le, ne→==,
}
use distributed_ascii_server.Text.{Bytes, eq_bytes, c_str}
use distributed_ascii_server.FileSystem.Disk.{Disk, fread}
use distributed_ascii_server.FileSystem.Directory.{search_loop, search, exist_file, entry_loop}

-- The name in entry `j`, and its first block.
abbrev pub entry_name : Disk → ℕ → Bytes
entry_name d j = c_str (fread d (j * 17) 16)

abbrev pub entry_block : Disk → ℕ → ℕ
entry_block d j = d.byte (j * 17 + 16)

-- The loop of existFile, entry by entry, when no entry below `k` has the name.
pub search_loop_found :
    (d : Disk) (name : Bytes) (k fuel j : ℕ) (last : Bytes)
    → eq_bytes name last ≡ false
    → ((i : ℕ) → j ≤ i → i < k → eq_bytes name (entry_name d i) ≡ false)
    → eq_bytes name (entry_name d k) ≡ true
    → j ≤ k
    → k < 15
    → k - j + 1 < fuel
    → search_loop fuel d name (j * 17) last ≡ some (k * 17 + 17)
unfolding search_loop
search_loop_found d name k zero j last h before here a b c = absurd (omega arith)
search_loop_found d name k (suc zero) j last h before here a b c = absurd (omega arith)
search_loop_found d name k (suc (suc fuel)) j last h before here a b c =
    elim (Bool-cases (ltb j k)) [
      | inl lt ↦
          let step : j * 17 + 17 ≡ suc j * 17 = omega arith in
          rw (h, lt→ltb (j * 17) 256 (omega arith), step)
            (search_loop_found d name k (suc fuel) (suc j) (entry_name d j)
              (before j (omega arith) (ltb→lt _ _ lt)) (λ i p q. before i (omega arith) q) here
              (omega (arith, ltb→lt j k lt)) b (omega (arith, ltb→lt j k lt)))
      | inr ge ↦
          let same : j ≡ k = omega (arith, ltb→le j k ge) in
          let hit : eq_bytes name (entry_name d j) ≡ true =
            ap (λ (i : ℕ). eq_bytes name (entry_name d i)) same ∙ here in
          rw (h, lt→ltb (j * 17) 256 (omega arith), hit) (ap (λ (i : ℕ). some (i * 17 + 17)) same)
    ]

-- The other way round: a search that passes the last entry has met the name in none before it.
pub search_loop_missed :
    (d : Disk) (name : Bytes) (fuel j : ℕ) (last : Bytes) (r : ℕ)
    → search_loop fuel d name (j * 17) last ≡ some r
    → 255 ≤ r
    → (i : ℕ) → j ≤ i
    → i < 14
    → eq_bytes name (entry_name d i) ≡ false
unfolding search_loop
search_loop_missed d name zero j last r h far i a b = cc
search_loop_missed d name (suc zero) j last r h far i a b = ground arith
search_loop_missed d name (suc (suc fuel)) j last r h far i a b = elim (Bool-cases (ltb j i)) [
  | inl lt ↦
      search_loop_missed d name (suc fuel) (suc j) (entry_name d j) r rest far i (ltb→lt _ _ lt) b
  | inr ge ↦
      let same : i ≡ j = omega (arith, ltb→le j i ge) in
      ap (λ (q : ℕ). eq_bytes name (entry_name d q)) same ∙ ground (arith, rest)
]
  where
    step : j * 17 + 17 ≡ suc j * 17
    step = omega arith

    rest : search_loop (suc fuel) d name (suc j * 17) (entry_name d j) ≡ some r
    rest = rw (← step) (ground (arith, h))

-- The loop of allocateInDirectory, when entry `k` is the first that is free.
pub entry_loop_free :
    (d : Disk) (k fuel j first place : ℕ)
    → first ≢ 0
    → ((i : ℕ) → j ≤ i → i < k → entry_block d i ≢ 0)
    → entry_block d k ≡ 0
    → j ≤ k
    → k < 15
    → 256 ≤ d.size
    → k - j + 1 < fuel
    → entry_loop fuel d (j * 17) first place ≡ some (k * 17 + 17)
unfolding entry_loop
entry_loop_free d k zero j first place f before here a b big c = absurd (omega arith)
entry_loop_free d k (suc zero) j first place f before here a b big c = absurd (omega arith)
entry_loop_free d k (suc (suc fuel)) j first place f before here a b big c =
    elim (Bool-cases (ltb j k)) [
      | inl lt ↦
          let step : j * 17 + 17 ≡ suc j * 17 = omega arith in
          rw
            (
              lt→ltb (j * 17) 256 (omega arith),
              ne→== first 0 f,
              lt→ltb (j * 17 + 16) d.size (omega arith),
              step,
            )
            (entry_loop_free d k (suc fuel) (suc j) (entry_block d j) (suc j * 17)
              (before j (omega arith) (ltb→lt _ _ lt)) (λ i p q. before i (omega arith) q) here
              (ltb→lt _ _ lt) b big (omega (arith, ltb→lt j k lt)))
      | inr ge ↦
          let same : j ≡ k = omega (arith, ltb→le j k ge) in
          let hit : entry_block d j ≡ 0 = ap (entry_block d) same ∙ here in
          rw
            (
              lt→ltb (j * 17) 256 (omega arith),
              ne→== first 0 f,
              lt→ltb (j * 17 + 16) d.size (omega arith),
              hit,
            )
            (ground (arith, ap (λ (i : ℕ). i * 17 + 17) same))
    ]

search_loop_total :
    (d : Disk) (name : Bytes) (fuel i : ℕ) (last : Bytes)
    → i < 273
    → 273 ≤ i + fuel * 17
    → (r : ℕ) × (search_loop fuel d name i last ≡ some r)
unfolding search_loop
search_loop_total d name zero i last a b = absurd (omega arith)
search_loop_total d name (suc fuel) i last a b =
    elim (Bool-cases (not (eq_bytes name last) && ltb i 256)) [
      | inl go ↦ rw go (
          search_loop_total d name fuel (i + 17) (c_str (fread d i 16)) (ground (arith, go))
            (omega arith))
      | inr stop ↦ (i, rw stop)
    ]

-- The search ends within the 17 rounds that it is given, on every disk.
pub search_loop-search :
    (d : Disk) (name : Bytes) → search_loop 17 d name 0 [] ≡ some (search d name)
unfolding search
search_loop-search d name =
    let (r, e) = search_loop_total d name 17 0 [] (omega arith) (omega arith) in rw (e, search) refl

-- A file that existFile does not find is in none of the first 14 entries.
pub exist_file_missed :
    (d : Disk) (name : Bytes) (i : ℕ)
    → exist_file d name ≡ none
    → i < 14
    → eq_bytes name (entry_name d i) ≡ false
unfolding exist_file
exist_file_missed d name i absent h =
    search_loop_missed d name 17 0 [] (search d name) (search_loop-search d name)
      (ground (arith, absent)) i (omega arith) h

-- The comparison of a name with a buffer of more bytes ends in the buffer: what stands behind it has
-- no part in the result.
eq_bytes_inside :
    (name buffer behind : Bytes)
    → length name < length buffer
    → eq_bytes name (c_str (buffer ++ behind)) ≡ eq_bytes name (c_str buffer)
unfolding eq_bytes c_str
eq_bytes_inside name [] behind short = absurd (omega arith)
eq_bytes_inside [] (c ∷ buffer) behind short = elim (Bool-cases (c == 0)) [
  | inl e ↦ rw e refl
  | inr e ↦ rw e refl
]
eq_bytes_inside (a ∷ name) (c ∷ buffer) behind short = elim (Bool-cases (c == 0)) [
  | inl e ↦ rw e refl
  | inr e ↦ rw (e, eq_bytes_inside name buffer behind (omega arith)) refl
]

-- ===== src/Simulation/Buffer/Laws.antt =====
-- What is written to the buffer is read from it.
use distributed_ascii_server.Prelude.{
  ℕ, zero, suc, ◌+◌, ◌%◌, ◌≤◌, ◌<◌, ◌≡◌, ◌≢◌, refl, sym, ap, ◌∙◌, [], ◌∷◌, ◌++◌, append_assoc,
  append-nil, arith, length, eq→==, ne→==,
}
use distributed_ascii_server.Text.{Bytes, done}
use distributed_ascii_server.Text.Laws.{Free, c_str_whole}
use distributed_ascii_server.Simulation.Buffer.{
  SharedMemory, store, write_loop, write, read_loop, read,
}

-- A place that the text does not reach keeps its character.
write_loop_kept :
    (buffer : ℕ → ℕ) (index p : ℕ) (value : Bytes)
    → index < 1024
    → ((i : ℕ) → i ≤ length value → (index + i) % 1024 ≢ p)
    → (write_loop buffer index value).0 p ≡ buffer p
unfolding write_loop store
write_loop_kept buffer index p [] low away =
    rw (ne→== p index (λ e. away 0 (omega arith) (omega arith))) refl
write_loop_kept buffer index p (c ∷ value) low away =
    write_loop_kept (store buffer index c) ((index + 1) % 1024) p value (omega arith)
      (λ i h e. away (suc i) (omega arith) (omega arith))
    ∙ rw (ne→== p index (λ e. away 0 (omega arith) (omega arith))) refl

write_loop_index :
    (buffer : ℕ → ℕ) (index : ℕ) (value : Bytes)
    → (write_loop buffer index value).1 ≡ (index + length value + 1) % 1024
unfolding write_loop
write_loop_index buffer index [] = omega arith
write_loop_index buffer index (c ∷ value) =
    write_loop_index (store buffer index c) ((index + 1) % 1024) value ∙ omega arith

write_loop_cons :
    (buffer : ℕ → ℕ) (index c : ℕ) (value : Bytes)
    → write_loop buffer index (c ∷ value)
      ≡ write_loop (store buffer index c) ((index + 1) % 1024) value
unfolding write_loop
write_loop_cons buffer index c value = refl

read_loop-write_loop :
    (fuel : ℕ) (buffer : ℕ → ℕ) (index : ℕ) (value result : Bytes)
    → index < 1024
    → length value < 1024
    → Free 0 value
    → length value < fuel
    → read_loop fuel (write_loop buffer index value).0 index result
      ≡ done (result ++ value, (index + length value + 1) % 1024)
unfolding read_loop
read_loop-write_loop zero buffer index value result low short clean enough = absurd (omega arith)
read_loop-write_loop (suc fuel) buffer index [] result low short clean enough =
    let here : (write_loop buffer index []).0 index ≡ 0 =
      unfold write_loop store in rw (eq→== index index refl) refl in
    rw (here, append-nil) (ap (λ (k : ℕ). done (result, k)) (omega arith))
read_loop-write_loop (suc fuel) buffer index (c ∷ value) result low short clean enough =
    let next : ℕ = (index + 1) % 1024 in
    let here : (write_loop buffer index (c ∷ value)).0 index ≡ c =
      unfold write_loop store in
      (write_loop_kept (store buffer index c) next index value (omega arith)
          (λ i h e. absurd (omega arith))
        ∙ rw (eq→== index index refl) refl) in
    let rest =
      read_loop-write_loop fuel (store buffer index c) next value (result ++ c ∷ []) (omega arith)
        (omega arith) clean.1 (omega arith) in
    rw (here, ne→== c 0 clean.0, write_loop_cons buffer index c value)
      (rest
        ∙ ap (λ (t : Bytes). done (t, (next + length value + 1) % 1024))
            (append_assoc result (c ∷ []) value)
        ∙ ap (λ (k : ℕ). done (result ++ c ∷ value, k)) (omega arith))

read_loop_nul :
    (fuel : ℕ) (buffer : ℕ → ℕ) (index : ℕ) (result : Bytes)
    → buffer index ≡ 0
    → read_loop (suc fuel) buffer index result ≡ done (result, (index + 1) % 1024)
unfolding read_loop
read_loop_nul fuel buffer index result h = rw h refl

-- A text of at most 1023 characters, none of them NUL, that is written when all that was written
-- before has been read, is read back whole, and leaves the two indices together again.
pub read-write :
    (m : SharedMemory) (value : Bytes)
    → m.read_index ≡ m.write_index
    → m.write_index < 1024
    → length value < 1024
    → Free 0 value
    → (m' : SharedMemory) × (read (write m value) ≡ done (value, m'))
      × (m'.read_index ≡ m'.write_index)
      × (m'.write_index < 1024)
unfolding read write
read-write m value together low short clean =
    let index = m.write_index in
    let written = write_loop m.buffer index value in
    (
      record m {
        buffer = written.0;
        write_index = written.1;
        read_index = (index + length value + 1) % 1024;
      },
      rw
          (
            c_str_whole value clean,
            together,
            read_loop-write_loop 1025 m.buffer index value [] low short clean (omega arith),
          )
          refl,
      sym (write_loop_index m.buffer index value),
      omega (arith, write_loop_index m.buffer index value),
    )

-- The NUL is written at the end, wherever that is.
last_write_at :
    (buffer : ℕ → ℕ) (index : ℕ) (value : Bytes)
    → index < 1024
    → (write_loop buffer index value).0 ((index + length value) % 1024) ≡ 0
unfolding write_loop store
last_write_at buffer index [] low = rw (eq→== ((index + 0) % 1024) index (omega arith)) refl
last_write_at buffer index (c ∷ value) low =
    ap (write_loop (store buffer index c) ((index + 1) % 1024) value).0 (omega arith)
    ∙ last_write_at (store buffer index c) ((index + 1) % 1024) value (omega arith)

last_write :
    (buffer : ℕ → ℕ) (index : ℕ) (value : Bytes)
    → index < 1024
    → length value ≡ 1024
    → (write_loop buffer index value).0 index ≡ 0
last_write buffer index value low full =
    ap (write_loop buffer index value).0 (omega arith) ∙ last_write_at buffer index value low

-- A text of exactly 1024 characters is lost: its NUL stands on the place of its first character,
-- and the read that follows gives the empty text.
pub read-write_overflow :
    (m : SharedMemory) (value : Bytes)
    → m.read_index ≡ m.write_index
    → m.write_index < 1024
    → length value ≡ 1024
    → Free 0 value
    → (m' : SharedMemory) × (read (write m value) ≡ done ([], m'))
unfolding read write
read-write_overflow m value together low full clean =
    let index = m.write_index in
    let written = write_loop m.buffer index value in
    (
      record m { buffer = written.0; write_index = written.1; read_index = (index + 1) % 1024 },
      rw
          (
            c_str_whole value clean,
            together,
            read_loop_nul 1024 written.0 index [] (last_write m.buffer index value low full),
          )
          refl,
    )

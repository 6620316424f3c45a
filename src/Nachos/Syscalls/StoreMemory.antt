-- ===== src/Nachos/Syscalls/StoreMemory.antt =====
-- The user program's memory after the store loop of Read.
use distributed_ascii_server.Prelude.{
  ℕ, suc, ◌+◌, ◌*◌, ◌/◌, ◌≤◌, ◌<◌, ◌≡◌, ◌≢◌, refl, ap, ◌∙◌, inl, inr, true, [], ◌∷◌, All, arith,
  ◌==◌, if◌then◌else◌, length, Bool-cases, ==→eq, ==→ne, eq→==, ne→==,
}
use distributed_ascii_server.Text.{Bytes}
use distributed_ascii_server.Nachos.Outcome.{ok}
use distributed_ascii_server.Nachos.AddrSpace.{AddrSpace, word}
use distributed_ascii_server.Nachos.AddrSpace.Paging.{frame, physical, IsMapped}
use distributed_ascii_server.Nachos.Kernel.{Kernel, write_mem, store_byte}
use distributed_ascii_server.Nachos.Syscalls.Memory.{store_loop}
use distributed_ascii_server.Nachos.Syscalls.UserMemory.{Runs, user_byte, write_mem_lem}

-- The bytes of a text from virtual address `v` on, and `other` elsewhere.
abbrev pub overlay : ℕ → Bytes → (ℕ → ℕ) → ℕ → ℕ
overlay v [] other w = other w
overlay v (byte ∷ s) other w = if w == v then byte else overlay (suc v) s other w

overlay_before : (u : ℕ) (s : Bytes) (other : ℕ → ℕ) (w : ℕ) → w < u → overlay u s other w ≡ other w
overlay_before u [] other w h = refl
overlay_before u (byte ∷ s) other w h =
    rw (ne→== w u (omega arith)) (overlay_before (suc u) s other w (omega arith))

overlay_same :
    (u : ℕ) (s : Bytes) (f g : ℕ → ℕ) (w : ℕ) → f w ≡ g w → overlay u s f w ≡ overlay u s g w
overlay_same u [] f g w e = e
overlay_same u (byte ∷ s) f g w e =
    ap (λ (r : ℕ). if w == u then byte else r) (overlay_same (suc u) s f g w e)

overlay_step :
    (v byte : ℕ) (s : Bytes) (f g : ℕ → ℕ) (w : ℕ)
    → g w ≡ (if w == v then byte else f w)
    → overlay (suc v) s g w ≡ overlay v (byte ∷ s) f w
overlay_step v byte s f g w e = elim (Bool-cases (w == v)) [
  | inl here ↦
      let before : w < suc v = omega (arith, ==→eq w v here) in
      rw here (overlay_before (suc v) s g w before ∙ e ∙ rw here refl)
  | inr other ↦ rw other (overlay_same (suc v) s g f w (e ∙ rw other refl))
]

module _ {U : Type 0} where
  -- What is written at one virtual address is seen there and at no other.
  store_byte-physical :
      (k : Kernel U) (space : AddrSpace) (v w value : ℕ)
      → IsMapped space.page_table
      → v < length space.page_table * 128
      → w < length space.page_table * 128
      → value < 256
      → user_byte (store_byte (physical space.page_table v) value k) space w
        ≡ (if w == v then value else user_byte k space w)
  store_byte-physical k space v w value mapped h h' small =
      elim (Bool-cases ((w / 128) == (v / 128))) [
        | inl same ↦
            let e : w / 128 ≡ v / 128 = ==→eq _ _ same in
            let f : frame space.page_table (w / 128) ≡ frame space.page_table (v / 128) =
              ap (frame space.page_table) e in
            elim (Bool-cases (w == v)) [
              | inl here ↦
                  rw (here, eq→== _ _ (ap (physical space.page_table) (==→eq w v here)))
                    (omega arith)
              | inr other ↦
                  rw
                    (
                      other,
                      ne→== (physical space.page_table w) (physical space.page_table v)
                          (λ q. ==→ne w v other (omega (arith, f, q))),
                    )
                    refl
            ]
        | inr other ↦
            let ne : w / 128 ≢ v / 128 = ==→ne _ _ other in
            let frames : frame space.page_table (w / 128) ≢ frame space.page_table (v / 128) =
              λ e. ne (mapped.apart (w / 128) (v / 128) (omega arith) (omega arith) e) in
            rw
              (
                ne→== w v (λ e. ne (ap (λ (q : ℕ). q / 128) e)),
                ne→== (physical space.page_table w) (physical space.page_table v)
                    (λ q. frames (omega (arith, q))),
              )
              refl
      ]

  -- What the store loop leaves alone.
  abbrev pub with_frames : Kernel U → (ℕ → ℕ) → Kernel U
  with_frames k memory = record k { frames = record k.frames { main_memory = memory } }

  store_loop_step :
      (k k₁ k' : Kernel U) (v byte : ℕ) (s : Bytes)
      → write_mem k v byte ≡ ok (true, k₁)
      → word (v + 1) ≡ suc v
      → store_loop s (suc v) k₁ ≡ ok (true, k')
      → store_loop (byte ∷ s) v k ≡ ok (true, k')
  unfolding store_loop
  store_loop_step k k₁ k' v byte s stored next ran = rw (stored, next, ran) refl

  pub store_loop_lem :
      (k : Kernel U) (space : AddrSpace) (v : ℕ) (s : Bytes)
      → Runs k space
      → IsMapped space.page_table
      → v + length s ≤ length space.page_table * 128
      → All (λ byte. byte < 256) s
      → (memory : ℕ → ℕ) × (store_loop s v k ≡ ok (true, with_frames k memory))
        × ((w : ℕ)
            → w < length space.page_table * 128
            → user_byte (with_frames k memory) space w ≡ overlay v s (user_byte k space) w)
  unfolding store_loop
  store_loop_lem k space v [] runs mapped h small = (k.frames.main_memory, refl, λ w h'. refl)
  store_loop_lem k space v (byte ∷ s) runs mapped h small =
      let next : word (v + 1) ≡ suc v = omega (arith, runs.pages) in
      let k₁ = store_byte (physical space.page_table v) byte k in
      let (memory, ran, seen) =
        store_loop_lem k₁ space (suc v) s
          (record { current = runs.current; writable = runs.writable; pages = runs.pages }) mapped
          (omega arith) small.1 in
      (
        memory,
        store_loop_step k k₁ (with_frames k memory) v byte s
            (write_mem_lem k space v byte runs (omega arith)) next ran,
        λ w h'.
            seen w h'
            ∙ overlay_step v byte s (user_byte k space) (user_byte k₁ space) w
                (store_byte-physical k space v w byte mapped (omega arith) h' small.0),
      )

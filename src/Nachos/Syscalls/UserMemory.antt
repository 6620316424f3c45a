-- ===== src/Nachos/Syscalls/UserMemory.antt =====
-- The user program's memory, as the handlers see it: what the loops over it read and write.
use distributed_ascii_server.Prelude.{
  ℕ, zero, suc, ◌+◌, ◌-◌, ◌*◌, ◌/◌, ◌≤◌, ◌<◌, ◌≡◌, refl, ap, ◌∙◌, Bool, true, false, Option, some,
  List, [], ◌∷◌, ◌++◌, arith, leb, length, get_elem?, ne→==, lt→leb,
}
use distributed_ascii_server.Text.{Bytes}
use distributed_ascii_server.Text.Laws.{Free}
use distributed_ascii_server.Nachos.Outcome.{Outcome, ok, out_of_bounds}
use distributed_ascii_server.Nachos.AddrSpace.{TranslationEntry, AddrSpace, word}
use distributed_ascii_server.Nachos.AddrSpace.Paging.{physical}
use distributed_ascii_server.Nachos.Kernel.{Kernel, translate, at, read_mem, write_mem, store_byte}
use distributed_ascii_server.Nachos.Syscalls.Memory.{name_loop, buffer_loop, ip_loop}

-- Every page is valid, can be written, and has a frame of the machine.
abbrev pub IsWritable : List TranslationEntry → Type 0
IsWritable [] = Unit
IsWritable (e ∷ table) =
    (e.valid ≡ true) × (e.read_only ≡ false) × (e.physical_page < 32) × IsWritable table

translate_at :
    (table : List TranslationEntry) (q : ℕ)
    → IsWritable table
    → q < length table
    → (e : TranslationEntry) × (get_elem? table q ≡ some e)
      × (e.valid ≡ true)
      × (e.read_only ≡ false)
      × (e.physical_page < 32)
translate_at [] q w h = absurd (omega arith)
translate_at (e ∷ table) zero w h = (e, refl, w.0, w.1, w.2)
translate_at (e ∷ table) (suc q) w h = translate_at table q w.3 (omega arith)

translate_lem :
    (space : AddrSpace) (v : ℕ) (writing : Bool)
    → IsWritable space.page_table
    → v < length space.page_table * 128
    → translate space v writing ≡ at (physical space.page_table v)
unfolding translate
translate_lem space v writing w h =
    let (e, here, valid, free, small) = translate_at space.page_table (v / 128) w (omega arith) in
    let inside : leb 32 e.physical_page ≡ false = lt→leb 32 e.physical_page small in
    ground (arith, here, valid, free, inside)

module _ {U : Type 0} where
  -- The process `space` runs.
  pub record Runs (k : Kernel U) (space : AddrSpace) : Type 0 where
    pub current : k.space ≡ some space
    pub writable : IsWritable space.page_table
    pub pages : length space.page_table ≤ 32

  -- The byte at virtual address `v`.
  abbrev pub user_byte : Kernel U → AddrSpace → ℕ → ℕ
  user_byte k space v = k.frames.main_memory (physical space.page_table v)

  pub read_mem_lem :
      (k : Kernel U) (space : AddrSpace) (v : ℕ)
      → Runs k space
      → v < length space.page_table * 128
      → read_mem k v ≡ ok (some (user_byte k space v), k)
  unfolding read_mem
  read_mem_lem k space v runs h =
      ground (arith, runs.current, translate_lem space v false runs.writable h)

  pub write_mem_lem :
      (k : Kernel U) (space : AddrSpace) (v value : ℕ)
      → Runs k space
      → v < length space.page_table * 128
      → write_mem k v value ≡ ok (true, store_byte (physical space.page_table v) value k)
  unfolding write_mem
  write_mem_lem k space v value runs h =
      ground (arith, runs.current, translate_lem space v true runs.writable h)

  -- `s` stands at virtual address `v`.
  abbrev pub Sees : Kernel U → AddrSpace → ℕ → Bytes → Type 0
  Sees k space v [] = Unit
  Sees k space v (byte ∷ s) = (user_byte k space v ≡ byte) × Sees k space (suc v) s

  abbrev got_byte : ℕ → Kernel U → Outcome (Option ℕ × Kernel U)
  got_byte byte k = ok (some byte, k)

  abbrev named : Bytes → ℕ → Kernel U → Outcome (Bytes × ℕ × Kernel U)
  named s room k = ok (s, room, k)

  read_byte :
      (k : Kernel U) (space : AddrSpace) (v byte : ℕ)
      → Runs k space
      → v < length space.page_table * 128
      → user_byte k space v ≡ byte
      → read_mem k v ≡ ok (some byte, k)
  read_byte k space v byte runs h here =
      read_mem_lem k space v runs h ∙ ap (λ (b : ℕ). got_byte b k) here

  pub buffer_loop_lem :
      (k : Kernel U) (space : AddrSpace) (v : ℕ) (s : Bytes)
      → Runs k space
      → v + length s ≤ length space.page_table * 128
      → Sees k space v s
      → buffer_loop (length s) v k ≡ ok (some s, k)
  unfolding buffer_loop
  buffer_loop_lem k space v [] runs h sees = refl
  buffer_loop_lem k space v (byte ∷ s) runs h sees =
      let next : word (v + 1) ≡ suc v = omega (arith, runs.pages) in
      rw
        (
          read_byte k space v byte runs (omega arith) sees.0,
          next,
          buffer_loop_lem k space (suc v) s runs (omega arith) sees.1,
        )
        refl

  -- A name that ends before its buffer does.
  pub name_loop_lem :
      (k : Kernel U) (space : AddrSpace) (room v c : ℕ) (s : Bytes)
      → Runs k space
      → v + length s < length space.page_table * 128
      → Sees k space v (s ++ 0 ∷ [])
      → Free 0 s
      → length s < room
      → name_loop room v c k ≡ ok (s, room - length s - 1, k)
  unfolding name_loop
  name_loop_lem k space zero v c s runs h sees clean short = absurd (omega arith)
  name_loop_lem k space (suc room) v c [] runs h sees clean short =
      rw (read_byte k space v 0 runs (omega arith) sees.0)
        (ap (λ (r : ℕ). named [] r k) (omega arith))
  name_loop_lem k space (suc room) v c (byte ∷ s) runs h sees clean short =
      let next : word (v + 1) ≡ suc v = omega (arith, runs.pages) in
      rw
        (
          read_byte k space v byte runs (omega arith) sees.0,
          next,
          ne→== byte 0 clean.0,
          name_loop_lem k space room (suc v) byte s runs (omega arith) sees.1 clean.1 (omega arith),
        )
        (ap (λ (r : ℕ). named (byte ∷ s) r k) (omega arith))

  -- An address that ends before the rounds do.
  pub ip_loop_lem :
      (k : Kernel U) (space : AddrSpace) (rounds v : ℕ) (s : Bytes)
      → Runs k space
      → v + length s < length space.page_table * 128
      → Sees k space v (s ++ 0 ∷ [])
      → Free 0 s
      → length s < rounds
      → ip_loop rounds v k ≡ ok (some s, k)
  unfolding ip_loop
  ip_loop_lem k space zero v s runs h sees clean short = absurd (omega arith)
  ip_loop_lem k space (suc rounds) v [] runs h sees clean short =
      rw (read_byte k space v 0 runs (omega arith) sees.0) refl
  ip_loop_lem k space (suc rounds) v (byte ∷ s) runs h sees clean short =
      let next : word (v + 1) ≡ suc v = omega (arith, runs.pages) in
      rw
        (
          read_byte k space v byte runs (omega arith) sees.0,
          next,
          ne→== byte 0 clean.0,
          ip_loop_lem k space rounds (suc v) s runs (omega arith) sees.1 clean.1 (omega arith),
        )
        refl

  -- A name that is as long as its buffer, or longer.
  pub name_loop_long :
      (k : Kernel U) (space : AddrSpace) (room v c : ℕ) (s : Bytes)
      → Runs k space
      → v + length s < length space.page_table * 128
      → Sees k space v (s ++ 0 ∷ [])
      → Free 0 s
      → room ≤ length s
      → name_loop room v c k ≡ out_of_bounds
  unfolding name_loop
  name_loop_long k space zero v c [] runs h sees clean long =
      rw (read_byte k space v 0 runs (omega arith) sees.0) refl
  name_loop_long k space (suc room) v c [] runs h sees clean long = absurd (omega arith)
  name_loop_long k space zero v c (byte ∷ s) runs h sees clean long =
      rw (read_byte k space v byte runs (omega arith) sees.0) refl
  name_loop_long k space (suc room) v c (byte ∷ s) runs h sees clean long =
      let next : word (v + 1) ≡ suc v = omega (arith, runs.pages) in
      rw
        (
          read_byte k space v byte runs (omega arith) sees.0,
          next,
          ne→== byte 0 clean.0,
          name_loop_long k space room (suc v) byte s runs (omega arith) sees.1 clean.1
              (omega arith),
        )
        refl

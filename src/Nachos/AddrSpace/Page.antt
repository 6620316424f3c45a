-- ===== src/Nachos/AddrSpace/Page.antt =====
-- ReadAt into one page, seen through the page table.
use distributed_ascii_server.Prelude.{
  ℕ, ◌+◌, ◌-◌, ◌*◌, ◌/◌, ◌≤◌, ◌<◌, ◌≡◌, ◌≢◌, refl, ap, inl, inr, false, ◌&&◌, List, arith, ltb, leb,
  ◌==◌, if◌then◌else◌, length, take, drop, get_or, Bool-cases, ==→eq, ==→ne, le→leb, get_or-take,
  get_or-drop, length-take, length-drop,
}
use distributed_ascii_server.Text.{Bytes}
use distributed_ascii_server.Nachos.Outcome.{ok}
use distributed_ascii_server.Nachos.AddrSpace.{TranslationEntry, word, read_at}
use distributed_ascii_server.Nachos.AddrSpace.Paging.{
  frame, physical, has_frame, IsMapped, has_frame-frame,
}

module _ (table : List TranslationEntry) (mapped : IsMapped table) (file : Bytes)
    (position i off count : ℕ) (memory : ℕ → ℕ) (there : i < length table)
    (inside : off + count ≤ 128) (enough : position + count ≤ length file) where
  abbrev pub addr : ℕ
  addr = frame table i * 128 + off

  abbrev pub read : ℕ → ℕ
  read p =
      if leb addr p && ltb p (addr + count)
      then get_or (take count (drop position file)) (p - addr) 0
      else memory p

  pub read_at_page : read_at memory file (word addr) count position ≡ ok read
  unfolding read_at
  read_at_page =
      let here : word addr ≡ addr = omega (arith, mapped.inside i there) in
      let got : length (take count (drop position file)) ≡ count =
        omega (arith, length-take {0} count (drop position file), length-drop {0} position file) in
      rw (here, got, le→leb (addr + count) 4096 (omega (arith, mapped.inside i there))) refl

  pub read-physical :
      (v : ℕ)
      → v < length table * 128
      → read (physical table v) ≡ (
          if leb (i * 128 + off) v && ltb v (i * 128 + off + count)
          then get_or file (position + (v - (i * 128 + off))) 0
          else memory (physical table v))
  read-physical v small = elim (Bool-cases ((v / 128) == i)) [
    | inl same ↦
        let e : v / 128 ≡ i = ==→eq _ _ same in
        let f : frame table (v / 128) ≡ frame table i = ap (frame table) e in
        let k : physical table v - addr ≡ v - (i * 128 + off) = omega (arith, f) in
        ground (
          arith,
          f,
          k,
          get_or-take count (v - (i * 128 + off)) (drop position file) 0,
          get_or-drop position (v - (i * 128 + off)) file 0,
        )
    | inr other ↦
        let frames : frame table (v / 128) ≢ frame table i =
          λ e. ==→ne _ _ other (mapped.apart (v / 128) i (omega arith) there e) in
        let ne : v / 128 ≢ i = ==→ne _ _ other in ground arith
  ]

  pub read-outside : (p : ℕ) → has_frame (p / 128) table ≡ false → read p ≡ memory p
  read-outside p none_here =
      let other : frame table i ≢ p / 128 =
        λ e. cc (has_frame-frame table i there, ap (λ q. has_frame q table) e) in
      ground arith

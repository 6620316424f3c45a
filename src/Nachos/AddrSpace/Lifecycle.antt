-- ===== src/Nachos/AddrSpace/Lifecycle.antt =====
-- The frames of a process from its constructor, or from Fork, to its destructor.
use distributed_ascii_server.Prelude.{
  ℕ, zero, suc, ◌+◌, ◌-◌, ◌*◌, ◌/◌, ◌≤◌, ◌<◌, ◌≡◌, refl, sym, ap, ◌∙◌, subst, not, ◌&&◌, List, [],
  ◌∷◌, ◌++◌, arith, ◌==◌, if◌then◌else◌, length, take, le→leb,
}
use mathlib.Core.Path.{fun_ext}
use distributed_ascii_server.Text.{Bytes}
use distributed_ascii_server.Nachos.Outcome.{Outcome, ok, ◌>>=◌, went_through}
use distributed_ascii_server.Nachos.BitMap.{BitMap, bit, find}
use distributed_ascii_server.Nachos.BitMap.Laws.{
  IsSized, cleared, clear_lem, bit-cleared, cleared-IsSized,
}
use distributed_ascii_server.Nachos.AddrSpace.{
  TranslationEntry, NoffHeader, Frames, AddrSpace, right_header, new_addr_space, fork_addr_space,
  stack_pages, clear_pages, delete_addr_space, find_pages, bzero, word,
}
use distributed_ascii_server.Nachos.AddrSpace.Paging.{with_page, has_frame, IsMapped, Taken}
use distributed_ascii_server.Nachos.AddrSpace.Free.{free, InUse, find_pages-IsMapped}
use distributed_ascii_server.Nachos.AddrSpace.Program.{IsLoadable, new_addr_space-Created}

-- The destructor clears the frames of the table, and no other.
pub clear_pages_lem :
    (table : List TranslationEntry) (b : BitMap)
    → IsSized b
    → InUse b.num_bits table
    → (b' : BitMap) × (clear_pages table b ≡ ok b')
      × (b'.num_bits ≡ b.num_bits)
      × ((j : ℕ) → bit b' j ≡ (bit b j && not (has_frame j table)))
      × IsSized b'
unfolding clear_pages
clear_pages_lem [] b sized used = (b, refl, refl, λ j. ground arith, sized)
clear_pages_lem (e ∷ table) b sized (valid, inside, used) =
    let (b', ran, same, bits, sized') =
      clear_pages_lem table (cleared b sized e.physical_page inside)
        (cleared-IsSized b sized e.physical_page inside) used in
    (
      b',
      rw (valid, clear_lem b sized e.physical_page inside) ran,
      same,
      λ j. ground (arith, bits j, bit-cleared b sized e.physical_page inside j),
      sized',
    )

-- A process that can be loaded leaves the map of 32 frames as it was, once it has been created and
-- deleted: its header has the magic number, its pages are at most 32 and no more than there are free
-- frames, and its code and initialised data lie in its pages and in the file.
pub delete_addr_space-new_addr_space :
    (word_to_host : ℕ → ℕ) (h : NoffHeader) (file : Bytes) (f : Frames)
    → IsLoadable (right_header word_to_host h) file f
    → (f' : Frames) × ((new_addr_space word_to_host h file f >>= λ made.
          delete_addr_space made.0 made.1)
        ≡ ok f')
      × (f'.mi_mapa.num_bits ≡ f.mi_mapa.num_bits)
      × ((j : ℕ) → j < 32 → bit f'.mi_mapa j ≡ bit f.mi_mapa j)
unfolding delete_addr_space
delete_addr_space-new_addr_space word_to_host h file f loadable =
    let (space, f₁, ran, made) = new_addr_space-Created word_to_host h file f loadable in
    let bits_32 : f₁.mi_mapa.num_bits ≡ 32 = made.taken.same_bits ∙ loadable.frames in
    let (b, cleared_ran, same, bits, _) =
      clear_pages_lem space.page_table f₁.mi_mapa made.taken.sized
        (subst (λ n. InUse n space.page_table) (sym bits_32) made.in_use) in
    (
      record f₁ { mi_mapa = b },
      rw (ran, cleared_ran) refl,
      same ∙ made.taken.same_bits,
      λ j small.
          let inside : j < f.mi_mapa.num_bits = omega (arith, loadable.frames) in
          ground (arith, bits j, made.taken.bits j inside, made.taken.fresh j inside),
    )

-- Memory with the frames of `table` cleared.
abbrev pub without : List TranslationEntry → (ℕ → ℕ) → ℕ → ℕ
without table memory p = if has_frame (p / 128) table then 0 else memory p

-- bzero of one frame.
abbrev one_cleared : ℕ → (ℕ → ℕ) → ℕ → ℕ
one_cleared k memory p = if (k == (p / 128)) then 0 else memory p

bzero-frame :
    (memory : ℕ → ℕ) (k : ℕ)
    → k < 32
    → bzero memory (word (k * 128)) 128 ≡ ok (one_cleared k memory)
unfolding bzero
bzero-frame memory k small =
    let here : word (k * 128) ≡ k * 128 = omega arith in
    rw (here, le→leb (k * 128 + 128) 4096 (omega arith)) (ap ok (fun_ext (λ p. ground arith)))

abbrev stack_result :
    List TranslationEntry → BitMap → (ℕ → ℕ) → Outcome (List TranslationEntry × Frames)
stack_result table b memory = ok (table, record { mi_mapa = b; main_memory = memory })

stack_pages_step :
    (rounds i : ℕ) (f : Frames) (k : ℕ) (b₁ : BitMap) (more : List TranslationEntry) (b : BitMap)
    → find f.mi_mapa ≡ ok (k, b₁)
    → k < 32
    → stack_pages rounds
        (suc i)
        (record { mi_mapa = b₁; main_memory = one_cleared k f.main_memory })
      ≡ ok (more, record { mi_mapa = b; main_memory = without more (one_cleared k f.main_memory) })
    → stack_pages (suc rounds) i f
      ≡ ok (
        with_page i k more,
        record { mi_mapa = b; main_memory = without (with_page i k more) f.main_memory },
      )
unfolding stack_pages
stack_pages_step rounds i f k b₁ more b found small rest =
    rw (found, bzero-frame f.main_memory k small, rest)
      (ap (stack_result (with_page i k more) b) (fun_ext (λ p. ground arith)))

no_stack_pages :
    (i : ℕ) (f : Frames)
    → stack_pages 0 i f
      ≡ ok ([], record { mi_mapa = f.mi_mapa; main_memory = without [] f.main_memory })
unfolding stack_pages
no_stack_pages i f = refl

-- The loop over the stack's pages takes frames as find_pages does, and clears each.
stack_pages_lem :
    (rounds i : ℕ) (f : Frames) (table : List TranslationEntry) (b : BitMap)
    → find_pages rounds i f.mi_mapa ≡ ok (table, b)
    → InUse 32 table
    → stack_pages rounds i f
      ≡ ok (table, record { mi_mapa = b; main_memory = without table f.main_memory })
unfolding find_pages
stack_pages_lem zero i f table b ran used =
    let none_taken : table ≡ [] = cc in
    let same : f.mi_mapa ≡ b = cc in rw (none_taken, sym same) (no_stack_pages i f)
stack_pages_lem (suc rounds) i f table b ran used =
    let (found, found_ran, rest) =
      went_through
        (λ found.
          find_pages rounds (suc i) found.1 >>= λ more. ok (with_page i found.0 more.0, more.1))
        (table, b) (find f.mi_mapa) ran in
    let (more, more_ran, final) =
      went_through (λ more. ok (with_page i found.0 more.0, more.1)) (table, b)
        (find_pages rounds (suc i) found.1) rest in
    let same : (with_page i found.0 more.0, more.1) ≡ (table, b) = cc in
    let used' = subst (λ (r : List TranslationEntry × BitMap). InUse 32 r.0) (sym same) used in
    subst
      (λ (r : List TranslationEntry × BitMap).
        stack_pages (suc rounds) i f
        ≡ ok (r.0, record { mi_mapa = r.1; main_memory = without r.0 f.main_memory }))
      same
      (stack_pages_step rounds i f found.0 found.1 more.0 more.1 found_ran used'.1 (
        stack_pages_lem rounds (suc i)
          (record { mi_mapa = found.1; main_memory = one_cleared found.0 f.main_memory }) more.0
          more.1 more_ran used'.2))

-- Fork gives the child the parent's entries for the pages below the stack, and for each of the eight
-- pages of the stack a frame of its own, below 32, that was free. Those frames are cleared, and the rest of
-- memory, the parent's stack included, is left alone.
pub fork_addr_space_lem :
    (space : AddrSpace) (f : Frames)
    → 8 ≤ space.num_pages
    → IsSized f.mi_mapa
    → f.mi_mapa.num_bits ≡ 32
    → 8 ≤ free 32 f.mi_mapa
    → (stack : List TranslationEntry) × (b : BitMap) × (fork_addr_space space f
        ≡ ok (
          record {
            page_table = take (space.num_pages - 8) space.page_table ++ stack;
            num_pages = space.num_pages;
          },
          record { mi_mapa = b; main_memory = without stack f.main_memory },
        ))
      × (length stack ≡ 8)
      × InUse 32 stack
      × IsMapped stack
      × Taken f.mi_mapa stack b
unfolding fork_addr_space
fork_addr_space_lem space f enough_pages sized frames enough =
    let size = space.num_pages - 8 in
    let (stack, b, found, eight, in_use, mapped, taken) =
      find_pages-IsMapped 8 size f.mi_mapa sized frames enough in
    let rounds : space.num_pages - size ≡ 8 = omega arith in
    (
      stack,
      b,
      rw (rounds, stack_pages_lem 8 size f stack b found in_use) refl,
      eight,
      in_use,
      mapped,
      taken,
    )

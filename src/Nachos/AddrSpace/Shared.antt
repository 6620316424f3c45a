-- ===== src/Nachos/AddrSpace/Shared.antt =====
-- What the end of a forked process does to the frames that it shares with its parent.
use distributed_ascii_server.Prelude.{
  ℕ, zero, suc, ◌-◌, ◌≤◌, ◌≡◌, refl, sym, ◌∙◌, subst, true, false, List, [], ◌∷◌, ◌++◌, arith, take,
}
use distributed_ascii_server.Nachos.Outcome.{ok, ◌>>=◌}
use distributed_ascii_server.Nachos.BitMap.{bit}
use distributed_ascii_server.Nachos.BitMap.Laws.{IsSized}
use distributed_ascii_server.Nachos.AddrSpace.{
  TranslationEntry, Frames, AddrSpace, delete_addr_space, fork_addr_space,
}
use distributed_ascii_server.Nachos.AddrSpace.Paging.{has_frame}
use distributed_ascii_server.Nachos.AddrSpace.Free.{free, InUse}
use distributed_ascii_server.Nachos.AddrSpace.Lifecycle.{
  without, clear_pages_lem, fork_addr_space_lem,
}

InUse-append :
    (n : ℕ) (table more : List TranslationEntry)
    → InUse n table
    → InUse n more
    → InUse n (table ++ more)
InUse-append n [] more h k = k
InUse-append n (e ∷ table) more h k = (h.0, h.1, InUse-append n table more h.2 k)

InUse-take : (n m : ℕ) (table : List TranslationEntry) → InUse n table → InUse n (take m table)
InUse-take n zero table h = tt
InUse-take n (suc m) [] h = tt
InUse-take n (suc m) (e ∷ table) h = (h.0, h.1, InUse-take n m table h.2)

has_frame-append :
    (j : ℕ) (table more : List TranslationEntry)
    → has_frame j table ≡ true
    → has_frame j (table ++ more) ≡ true
has_frame-append j [] more h = cc
has_frame-append j (e ∷ table) more h = ground (arith, has_frame-append j table more)

-- A process with at least the stack's pages is forked, and the child is deleted while the parent
-- goes on: every frame that the parent has for a page below its stack is then free in the map.
pub delete_addr_space-fork_addr_space :
    (space : AddrSpace) (f : Frames)
    → 8 ≤ space.num_pages
    → InUse 32 space.page_table
    → IsSized f.mi_mapa
    → f.mi_mapa.num_bits ≡ 32
    → 8 ≤ free 32 f.mi_mapa
    → (f' : Frames) × ((fork_addr_space space f >>= λ made. delete_addr_space made.0 made.1)
        ≡ ok f')
      × ((j : ℕ)
          → has_frame j (take (space.num_pages - 8) space.page_table) ≡ true
          → bit f'.mi_mapa j ≡ false)
unfolding delete_addr_space
delete_addr_space-fork_addr_space space f pages used sized bits_32 enough =
    let (stack, b, forked, eight, stack_used, mapped, taken) =
      fork_addr_space_lem space f pages sized bits_32 enough in
    let shared = take (space.num_pages - 8) space.page_table in
    let child_used =
      InUse-append 32 shared stack (InUse-take 32 (space.num_pages - 8) space.page_table used)
        stack_used in
    let (b', cleared_ran, same, bits, sized') =
      clear_pages_lem (shared ++ stack) b taken.sized
        (subst (λ n. InUse n (shared ++ stack)) (sym (taken.same_bits ∙ bits_32)) child_used) in
    (
      record { mi_mapa = b'; main_memory = without stack f.main_memory },
      rw (forked, cleared_ran) refl,
      λ j has. ground (arith, bits j, has_frame-append j shared stack has),
    )

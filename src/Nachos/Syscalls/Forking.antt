-- ===== src/Nachos/Syscalls/Forking.antt =====
-- Fork: the child's memory, and how it starts.
use distributed_ascii_server.Prelude.{
  ◌+◌, ◌-◌, ◌%◌, ◌≤◌, ◌≡◌, ◌≢◌, refl, ap, ◌∙◌, Option, some, List, [], ◌∷◌, ◌++◌, arith, length,
  take,
}
use distributed_ascii_server.Nachos.Outcome.{ok}
use distributed_ascii_server.Nachos.OpenFiles.{add_thread}
use distributed_ascii_server.Nachos.Synch.{v}
use distributed_ascii_server.Nachos.BitMap.Laws.{IsSized}
use distributed_ascii_server.Nachos.AddrSpace.{AddrSpace, TranslationEntry, Frames}
use distributed_ascii_server.Nachos.AddrSpace.Paging.{IsMapped, Taken}
use distributed_ascii_server.Nachos.AddrSpace.Free.{free}
use distributed_ascii_server.Nachos.AddrSpace.Lifecycle.{without, fork_addr_space_lem}
use distributed_ascii_server.Nachos.Kernel.{
  Kernel, Unix, Child, returned, v_console, return_from_system_call, pc_reg, next_pc_reg,
}
use distributed_ascii_server.Nachos.Syscalls.{
  nachos_fork, fork_locked, fork_space, forked, nachos_fork_thread, init_registers, ret_addr_reg,
}
use distributed_ascii_server.Nachos.Syscalls.Reading.{locked, p_console_free}

-- Fork while the console is free, in a process that has its stack's pages, with eight free frames:
-- one child is added, which shares the parent's pages below the stack and has a stack of its own, in
-- frames that were free. The parent goes on behind the call, and the console is free again. When
-- the child starts, it runs the routine that the parent named, and returns from it to address 4; the
-- open files count two more threads, and not one.
pub nachos_fork_lem :
    {U : Type 0} (unix : Unix U) (k : Kernel U) (space : AddrSpace)
    → k.space ≡ some space
    → k.console.value ≢ 0
    → 8 ≤ space.num_pages
    → IsSized k.frames.mi_mapa
    → k.frames.mi_mapa.num_bits ≡ 32
    → 8 ≤ free 32 k.frames.mi_mapa
    → (child : Child) × (k' : Kernel U) × (stack : List TranslationEntry) × (nachos_fork k
        ≡ ok (returned k'))
      × (k'.children ≡ k.children ++ child ∷ [])
      × (child.space.page_table ≡ take (space.num_pages - 8) space.page_table ++ stack)
      × (length stack ≡ 8)
      × IsMapped stack
      × Taken k.frames.mi_mapa stack k'.frames.mi_mapa
      × (k'.registers pc_reg ≡ k.registers next_pc_reg)
      × (k'.console.value ≡ k.console.value)
      × ((nachos_fork_thread child k').registers pc_reg ≡ k.registers 4)
      × ((nachos_fork_thread child k').registers ret_addr_reg ≡ 4)
      × ((nachos_fork_thread child k').files.usage ≡ (k.files.usage + 2) % 4294967296)
unfolding nachos_fork fork_locked fork_space nachos_fork_thread init_registers
    return_from_system_call v_console v add_thread
nachos_fork_lem unix k space current free_console pages sized frames enough =
    let (stack, b, ran, eight, _, mapped, taken) =
      fork_addr_space_lem space k.frames pages sized frames enough in
    let made : AddrSpace × Frames = (
      record {
        page_table = take (space.num_pages - 8) space.page_table ++ stack;
        num_pages = space.num_pages;
      },
      record { mi_mapa = b; main_memory = without stack k.frames.main_memory },
    ) in
    (
      record { id = k.new_thread; space = made.0; routine = k.registers 4 },
      v_console (return_from_system_call (forked made (locked unix k))),
      stack,
      p_console_free unix k fork_locked free_console
          ∙ ap (λ (o : Option AddrSpace). fork_space o (locked unix k)) current
          ∙ rw ran refl,
      refl,
      refl,
      eight,
      mapped,
      taken,
      refl,
      omega (arith, free_console),
      refl,
      refl,
      omega arith,
    )

-- ===== src/Tests/AddrSpace.antt =====
-- A program of two segments loaded beside another process, and its fork.
use distributed_ascii_server.Prelude.{
  ℕ, zero, suc, ◌/◌, ◌%◌, ◌<◌, ◌≡◌, refl, true, false, [], ◌∷◌, arith, replicate, take, map,
}
use distributed_ascii_server.Text.{Bytes}
use distributed_ascii_server.Nachos.Outcome.{ok, ◌>>=◌}
use distributed_ascii_server.Nachos.BitMap.{bit, test_bit}
use distributed_ascii_server.Nachos.BitMap.Laws.{IsSized}
use distributed_ascii_server.Nachos.AddrSpace.{
  NoffHeader, Frames, AddrSpace, right_header, new_addr_space, delete_addr_space, fork_addr_space,
}
use distributed_ascii_server.Nachos.AddrSpace.Paging.{has_frame}
use distributed_ascii_server.Nachos.AddrSpace.Processes.{
  IsOwned, Reach, start, next, create, reach-IsOwned,
}
use distributed_ascii_server.Nachos.AddrSpace.Shared.{delete_addr_space-fork_addr_space}
use distributed_ascii_server.Nachos.AddrSpace.Free.{free}
use distributed_ascii_server.Nachos.AddrSpace.Program.{IsLoadable, Created, new_addr_space-Created}
use distributed_ascii_server.Nachos.AddrSpace.Lifecycle.{delete_addr_space-new_addr_space}

-- On a host of the file's byte order WordToHost changes nothing.
abbrev word_to_host : ℕ → ℕ
word_to_host w = w

abbrev header : NoffHeader
header = record {
  noff_magic = 12246957;
  code = record { virtual_addr = 0; in_file_addr = 40; size = 200 };
  init_data = record { virtual_addr = 200; in_file_addr = 240; size = 10 };
  uninit_data = record { virtual_addr = 210; in_file_addr = 0; size = 30 };
}

abbrev program : Bytes
program = replicate 250 7

-- Frame 0 is another process's.
abbrev frames : Frames
frames = record { mi_mapa = record { num_bits = 32; map = 1 ∷ [] }; main_memory = λ p. 5 }

frames-IsSized : IsSized frames.mi_mapa
frames-IsSized = record { words = omega arith; countable = omega arith }

free_frames : free 32 frames.mi_mapa ≡ 31
unfolding free bit test_bit
free_frames = refl

loadable : IsLoadable (right_header word_to_host header) program frames
loadable = record {
  magic = refl;
  pages = omega arith;
  code = record { in_pages = omega arith; in_file = omega arith };
  init_data = record { in_pages = omega arith; in_file = omega arith };
  sized = frames-IsSized;
  frames = refl;
  enough = omega (arith, free_frames);
}

new_addr_space-Created_example :
    (space : AddrSpace) × (f' : Frames) × (new_addr_space word_to_host header program frames
      ≡ ok (space, f'))
    × Created (right_header word_to_host header) program frames space f'
new_addr_space-Created_example = new_addr_space-Created word_to_host header program frames loadable

delete_addr_space-new_addr_space_example :
    (f' : Frames) × ((new_addr_space word_to_host header program frames >>= λ made.
    delete_addr_space made.0 made.1)
      ≡ ok f')
    × (f'.mi_mapa.num_bits ≡ frames.mi_mapa.num_bits)
    × ((j : ℕ) → j < 32 → bit f'.mi_mapa j ≡ bit frames.mi_mapa j)
delete_addr_space-new_addr_space_example =
    delete_addr_space-new_addr_space word_to_host header program frames loadable

-- All frames are free.
abbrev no_frames : Frames
no_frames = record { mi_mapa = record { num_bits = 32; map = 0 ∷ [] }; main_memory = λ p. 5 }

no_frames-IsSized : IsSized no_frames.mi_mapa
no_frames-IsSized = record { words = omega arith; countable = omega arith }

free_no_frames : free 32 no_frames.mi_mapa ≡ 32
unfolding free bit test_bit
free_no_frames = refl

no_frames-IsLoadable : IsLoadable (right_header word_to_host header) program no_frames
no_frames-IsLoadable = record {
  magic = refl;
  pages = omega arith;
  code = record { in_pages = omega arith; in_file = omega arith };
  init_data = record { in_pages = omega arith; in_file = omega arith };
  sized = no_frames-IsSized;
  frames = refl;
  enough = omega (arith, free_no_frames);
}

no_bit : (k : ℕ) → test_bit 0 k ≡ false
unfolding test_bit
no_bit zero = refl
no_bit (suc k) = no_bit k

none_marked : (j : ℕ) → j < 32 → bit no_frames.mi_mapa j ≡ false
unfolding bit
none_marked j small = let low : j / 32 ≡ 0 = omega arith in rw low (no_bit (j % 32))

-- The program is loaded once.
first_process : (s : AddrSpace) × (f : Frames) × Reach word_to_host no_frames (s ∷ []) f
first_process =
    let (s, f, ran, made) =
      new_addr_space-Created word_to_host header program no_frames no_frames-IsLoadable in
    (s, f, next start (create header program s f no_frames-IsLoadable ran))

reach-IsOwned_example : IsOwned (first_process.0 ∷ []) first_process.1
reach-IsOwned_example = reach-IsOwned no_frames-IsSized refl none_marked first_process.2

abbrev forking : AddrSpace
forking = record {
  page_table =
      map (λ i. record { virtual_page = i; physical_page = i; valid = true; read_only = false })
        (0 ∷ 1 ∷ 2 ∷ 3 ∷ 4 ∷ 5 ∷ 6 ∷ 7 ∷ 8 ∷ []);
  num_pages = 9;
}

-- Frames 0 to 8 are the parent's.
abbrev parents : Frames
parents = record { mi_mapa = record { num_bits = 32; map = 511 ∷ [] }; main_memory = λ p. 5 }

free_parents : free 32 parents.mi_mapa ≡ 23
unfolding free bit test_bit
free_parents = refl

delete_addr_space-fork_addr_space_example :
    (f' : Frames) × ((fork_addr_space forking parents >>= λ made. delete_addr_space made.0 made.1)
      ≡ ok f')
    × ((j : ℕ) → has_frame j (take 1 forking.page_table) ≡ true → bit f'.mi_mapa j ≡ false)
delete_addr_space-fork_addr_space_example =
    delete_addr_space-fork_addr_space forking parents (omega arith) (ground arith)
      (record { words = omega arith; countable = omega arith }) refl (omega (arith, free_parents))

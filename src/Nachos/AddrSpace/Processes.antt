-- ===== src/Nachos/AddrSpace/Processes.antt =====
-- Several processes at once: whose each frame is, as address spaces are made and deleted, and what a
-- forked process does to its parent's frames.
use distributed_ascii_server.Prelude.{
  ℕ, zero, suc, ◌<◌, ◌≡◌, refl, sym, ap, ◌∙◌, subst, Bool, true, false, not, ◌&&◌, ◌||◌, some, List,
  [], ◌∷◌, All, arith, get_elem?, ==→eq,
}
use distributed_ascii_server.Text.{Bytes}
use distributed_ascii_server.Nachos.Outcome.{ok}
use distributed_ascii_server.Nachos.BitMap.{bit}
use distributed_ascii_server.Nachos.BitMap.Laws.{IsSized}
use distributed_ascii_server.Nachos.AddrSpace.{
  TranslationEntry, NoffHeader, Frames, AddrSpace, right_header, new_addr_space, delete_addr_space,
}
use distributed_ascii_server.Nachos.AddrSpace.Paging.{has_frame}
use distributed_ascii_server.Nachos.AddrSpace.Free.{InUse}
use distributed_ascii_server.Nachos.AddrSpace.Program.{IsLoadable, Created, new_addr_space-Created}
use distributed_ascii_server.Nachos.AddrSpace.Lifecycle.{clear_pages_lem}

-- Some process has the frame.
abbrev pub any_has : ℕ → List AddrSpace → Bool
any_has j [] = false
any_has j (s ∷ spaces) = has_frame j s.page_table || any_has j spaces

-- No two processes have a frame in common.
abbrev pub Disjoint : List AddrSpace → Type 0
Disjoint [] = Unit
Disjoint (s ∷ spaces) =
    ((j : ℕ) → has_frame j s.page_table ≡ true → any_has j spaces ≡ false) × Disjoint spaces

-- Each marked frame is a process's, each process's frame is marked, and no two processes share one.
pub record IsOwned (spaces : List AddrSpace) (f : Frames) : Type 0 where
  pub sized : IsSized f.mi_mapa
  pub bits_32 : f.mi_mapa.num_bits ≡ 32
  pub in_use : All (λ s. InUse 32 s.page_table) spaces
  pub owner : (j : ℕ) → j < 32 → bit f.mi_mapa j ≡ any_has j spaces
  pub disjoint : Disjoint spaces

abbrev pub remove : ℕ → List AddrSpace → List AddrSpace
remove i [] = []
remove zero (s ∷ spaces) = spaces
remove (suc i) (s ∷ spaces) = s ∷ remove i spaces

-- A process is made, or one of them is deleted.
pub data Step (word_to_host : ℕ → ℕ) (spaces : List AddrSpace) (f : Frames)
    : List AddrSpace → Frames → Type 0 where
  create :
      (h : NoffHeader) (file : Bytes) (s : AddrSpace) (f' : Frames)
      → IsLoadable (right_header word_to_host h) file f
      → new_addr_space word_to_host h file f ≡ ok (s, f')
      → Step word_to_host spaces f (s ∷ spaces) f'
  delete :
      (i : ℕ) (s : AddrSpace) (f' : Frames)
      → get_elem? spaces i ≡ some s
      → delete_addr_space s f ≡ ok f'
      → Step word_to_host spaces f (remove i spaces) f'

member :
    (j i : ℕ) (spaces : List AddrSpace) (s : AddrSpace)
    → get_elem? spaces i ≡ some s
    → has_frame j s.page_table ≡ true
    → any_has j spaces ≡ true
member j i [] s found has = cc
member j zero (t ∷ spaces) s found has =
    let same : t ≡ s = cc in rw (ap (λ r. has_frame j r.page_table) same ∙ has) refl
member j (suc i) (t ∷ spaces) s found has = ground (arith, member j i spaces s found has)

remove-any_has :
    (j i : ℕ) (spaces : List AddrSpace) (s : AddrSpace)
    → Disjoint spaces
    → get_elem? spaces i ≡ some s
    → any_has j (remove i spaces) ≡ (any_has j spaces && not (has_frame j s.page_table))
remove-any_has j i [] s apart found = cc
remove-any_has j zero (t ∷ spaces) s apart found =
    let it : t ≡ s = cc in
    let same : has_frame j t.page_table ≡ has_frame j s.page_table =
      ap (λ (r : AddrSpace). has_frame j r.page_table) it in
    ground (arith, same, apart.0 j)
remove-any_has j (suc i) (t ∷ spaces) s apart found =
    ground (arith, remove-any_has j i spaces s apart.1 found, member j i spaces s found, apart.0 j)

remove-free :
    (j i : ℕ) (spaces : List AddrSpace)
    → any_has j spaces ≡ false
    → any_has j (remove i spaces) ≡ false
remove-free j i [] h = refl
remove-free j zero (t ∷ spaces) h = ground arith
remove-free j (suc i) (t ∷ spaces) h = ground (arith, remove-free j i spaces)

remove-Disjoint : (i : ℕ) (spaces : List AddrSpace) → Disjoint spaces → Disjoint (remove i spaces)
remove-Disjoint i [] h = tt
remove-Disjoint zero (s ∷ spaces) h = h.1
remove-Disjoint (suc i) (s ∷ spaces) h =
    (λ j has. remove-free j i spaces (h.0 j has), remove-Disjoint i spaces h.1)

remove-All {κ} :
    (P : AddrSpace → Type κ) (i : ℕ) (spaces : List AddrSpace)
    → All P spaces
    → All P (remove i spaces)
remove-All P i [] h = tt
remove-All P zero (s ∷ spaces) h = h.1
remove-All P (suc i) (s ∷ spaces) h = (h.0, remove-All P i spaces h.1)

All-member {κ} :
    (P : AddrSpace → Type κ) (i : ℕ) (spaces : List AddrSpace) (s : AddrSpace)
    → All P spaces
    → get_elem? spaces i ≡ some s
    → P s
All-member P i [] s h found = cc
All-member P zero (t ∷ spaces) s h found = let same : t ≡ s = cc in subst P same h.0
All-member P (suc i) (t ∷ spaces) s h found = All-member P i spaces s h.1 found

has_frame-InUse :
    (n j : ℕ) (table : List TranslationEntry) → InUse n table → has_frame j table ≡ true → j < n
has_frame-InUse n j [] used has = cc
has_frame-InUse n j (e ∷ table) used has =
    ground (arith, has_frame-InUse n j table used.2, ==→eq e.physical_page j)

module _ {spaces : List AddrSpace} {f : Frames} (owned : IsOwned spaces f) where
  create-IsOwned :
      (h : NoffHeader) (file : Bytes) (s : AddrSpace) (f' : Frames)
      → Created h file f s f'
      → IsOwned (s ∷ spaces) f'
  create-IsOwned h file s f' made = record {
    sized = made.taken.sized;
    bits_32 = made.taken.same_bits ∙ owned.bits_32;
    in_use = (made.in_use, owned.in_use);
    owner = λ j small.
        ground (arith, made.taken.bits j (omega (arith, owned.bits_32)), owned.owner j small);
    disjoint = (
      λ j has.
          let small = has_frame-InUse 32 j s.page_table made.in_use has in
          sym (owned.owner j small) ∙ made.taken.fresh j (omega (arith, owned.bits_32, small)) has,
      owned.disjoint,
    );
  }

  delete-IsOwned :
      (i : ℕ) (s : AddrSpace) (f' : Frames)
      → get_elem? spaces i ≡ some s
      → delete_addr_space s f ≡ ok f'
      → IsOwned (remove i spaces) f'
  unfolding delete_addr_space
  delete-IsOwned i s f' found ran =
      let used = All-member (λ r. InUse 32 r.page_table) i spaces s owned.in_use found in
      let (b, cleared_ran, same_bits, bits, sized) =
        clear_pages_lem s.page_table f.mi_mapa owned.sized
          (subst (λ n. InUse n s.page_table) (sym owned.bits_32) used) in
      let deleted : delete_addr_space s f ≡ ok (record f { mi_mapa = b }) = rw cleared_ran refl in
      let same : record f { mi_mapa = b } ≡ f' = cc in
      subst (IsOwned (remove i spaces)) same (record {
        sized = sized;
        bits_32 = same_bits ∙ owned.bits_32;
        in_use = remove-All (λ r. InUse 32 r.page_table) i spaces owned.in_use;
        owner = λ j small.
            ground (
              arith,
              bits j,
              owned.owner j small,
              remove-any_has j i spaces s owned.disjoint found,
            );
        disjoint = remove-Disjoint i spaces owned.disjoint;
      })

Step-IsOwned :
    {word_to_host : ℕ → ℕ} {spaces spaces' : List AddrSpace} {f f' : Frames}
    → Step word_to_host spaces f spaces' f'
    → IsOwned spaces f
    → IsOwned spaces' f'
Step-IsOwned {word_to_host} {spaces} {f = f} (create h file s f' loadable ran) owned =
    let (s₁, f₁, ran₁, made) = new_addr_space-Created word_to_host h file f loadable in
    let same : (s₁, f₁) ≡ (s, f') = cc in
    subst (λ (r : AddrSpace × Frames). IsOwned (r.0 ∷ spaces) r.1) same
      (create-IsOwned owned (right_header word_to_host h) file s₁ f₁ made)
Step-IsOwned (delete i s f' found ran) owned = delete-IsOwned owned i s f' found ran

pub data Reach (word_to_host : ℕ → ℕ) (f₀ : Frames) : List AddrSpace → Frames → Type 0 where
  start : Reach word_to_host f₀ [] f₀
  next :
      {spaces spaces' : List AddrSpace} {f f' : Frames}
      → Reach word_to_host f₀ spaces f
      → Step word_to_host spaces f spaces' f'
      → Reach word_to_host f₀ spaces' f'

-- From an empty map of 32 frames, whatever processes are made and deleted, and in whatever order:
-- a frame is marked exactly if some process has it, no two processes have the same, and every page
-- of every process has a frame below 32. A process is made only where its program fits the frames.
pub reach-IsOwned :
    {word_to_host : ℕ → ℕ} {f₀ f : Frames} {spaces : List AddrSpace}
    → IsSized f₀.mi_mapa
    → f₀.mi_mapa.num_bits ≡ 32
    → ((j : ℕ) → j < 32 → bit f₀.mi_mapa j ≡ false)
    → Reach word_to_host f₀ spaces f
    → IsOwned spaces f
reach-IsOwned sized bits_32 empty start = record {
  sized = sized;
  bits_32 = bits_32;
  in_use = tt;
  owner = empty;
  disjoint = tt;
}
reach-IsOwned sized bits_32 empty (next reach step) =
    Step-IsOwned step (reach-IsOwned sized bits_32 empty reach)

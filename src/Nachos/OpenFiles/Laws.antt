-- ===== src/Nachos/OpenFiles/Laws.antt =====
-- Opening and closing files.
use distributed_ascii_server.Prelude.{
  ℕ, ◌≤◌, ◌<◌, ◌≡◌, ◌≢◌, refl, sym, ap, ◌∙◌, ◌⊎◌, inl, inr, Bool, true, false, not, ◌&&◌, arith,
  ◌==◌, length, get_or, set, length-set, get_or-set_self, get_or-set_ne, lt→ltb, le→ltb, eq→==,
  ne→==,
}
use distributed_ascii_server.Nachos.Outcome.{ok, out_of_bounds, minus_one}
use distributed_ascii_server.Nachos.BitMap.{BitMap, bit, test, find}
use distributed_ascii_server.Nachos.BitMap.Laws.{
  IsSized, Found, first, full, find-Found, cleared, clear_lem, bit-cleared,
}
use distributed_ascii_server.Nachos.OpenFiles.{
  OpenFilesTable, write_file_slot, open_file, is_opened, get_unix_handle, close_file,
}

-- A table as the constructor builds it: one bit and one place for each handle.
pub record IsTable (t : OpenFilesTable) : Type 0 where
  pub sized : IsSized t.open_files_map
  pub bits : t.open_files_map.num_bits ≡ 100
  pub places : length t.open_files ≡ 100

and-false : (b : Bool) → (b && false) ≡ false
and-false true = refl
and-false false = refl

pub is_opened_lem :
    (t : OpenFilesTable) (h : ℕ)
    → h < t.open_files_map.num_bits
    → is_opened t h ≡ ok (bit t.open_files_map h && not (get_or t.open_files h 0 == minus_one))
unfolding is_opened test
is_opened_lem t h inside = rw (lt→ltb _ _ inside) refl

-- What Open does to a table.
pub record Opened (t : OpenFilesTable) (unix_handle k : ℕ) (t' : OpenFilesTable) : Type 0 where
  pub fresh : is_opened t k ≡ ok false
  pub opened : is_opened t' k ≡ ok true
  pub handle : get_unix_handle t' k ≡ ok unix_handle
  pub others : (j : ℕ) → j < 100 → j ≢ k → is_opened t' j ≡ is_opened t j
  pub others_handle : (j : ℕ) → j ≢ k → get_unix_handle t' j ≡ get_unix_handle t j
  pub valid : IsTable t'

open_file-first :
    (t : OpenFilesTable) (unix_handle k : ℕ) (b : BitMap)
    → IsTable t
    → unix_handle ≢ minus_one
    → find t.open_files_map ≡ ok (k, b)
    → Found t.open_files_map k b
    → k < 100
    → (t' : OpenFilesTable) × (open_file t unix_handle ≡ ok (k, t')) × Opened t unix_handle k t'
unfolding open_file write_file_slot
open_file-first t u k b valid good ran (full i e every) small = absurd (omega arith)
open_file-first t u k b valid good ran (first i b' inside clear_here before same_bits bits sized)
      small =
    (
      t',
      rw (ran, ne→== k minus_one (omega arith), lt→ltb k (length t.open_files) place) refl,
      record {
        fresh = is_opened_lem t k inside ∙ ap ok (rw clear_here refl);
        opened =
            is_opened_lem t' k (omega (arith, same_bits))
            ∙ ap ok (
                rw
                  (
                    bits k,
                    eq→== k k refl,
                    get_or-set_self t.open_files k u 0 place,
                    ne→== u minus_one good,
                  )
                  refl);
        handle =
            unfold get_unix_handle in
            rw
              (
                lt→ltb k (length (set t.open_files k u))
                    (omega (arith, length-set {0} t.open_files k u, place)),
                get_or-set_self t.open_files k u 0 place,
              )
              refl;
        others = λ j small_j differ.
            is_opened_lem t' j (omega (arith, same_bits, valid.bits))
            ∙ ap ok (
                rw
                  (
                    bits j,
                    ne→== k j (λ e. differ (sym e)),
                    get_or-set_ne t.open_files k j u 0 (λ e. differ (sym e)),
                  )
                  refl)
            ∙ sym (is_opened_lem t j (omega (arith, valid.bits)));
        others_handle = λ j differ.
            unfold get_unix_handle in
            rw
              (
                length-set t.open_files k u,
                get_or-set_ne t.open_files k j u 0 (λ e. differ (sym e)),
              )
              refl;
        valid = record {
          sized = sized;
          bits = same_bits ∙ valid.bits;
          places = length-set t.open_files k u ∙ valid.places;
        };
      },
    )
  where
    place : k < length t.open_files
    place = omega (arith, valid.places)

    t' : OpenFilesTable
    t' = record t { open_files = set t.open_files k u; open_files_map = b' }

-- Open gives the lowest free handle, under which the Unix handle is then found, and leaves the other
-- handles as they were; or it returns -1 and every handle is in use.
pub open_file-Opened :
    (t : OpenFilesTable) (unix_handle : ℕ)
    → IsTable t
    → unix_handle ≢ minus_one
    → (k : ℕ) × (t' : OpenFilesTable) × (open_file t unix_handle ≡ ok (k, t'))
      × (Opened t unix_handle k t'
          ⊎ (k ≡ minus_one) × ((j : ℕ) → j < 100 → bit t.open_files_map j ≡ true))
open_file-Opened t u valid good =
    let (k, b, ran, found) = find-Found t.open_files_map valid.sized in open_cases k b ran found
  where
    open_cases :
        (k : ℕ) (b : BitMap)
        → find t.open_files_map ≡ ok (k, b)
        → Found t.open_files_map k b
        → (k : ℕ) × (t' : OpenFilesTable) × (open_file t u ≡ ok (k, t'))
          × (Opened t u k t'
              ⊎ (k ≡ minus_one) × ((j : ℕ) → j < 100 → bit t.open_files_map j ≡ true))
    open_cases k b ran (full i e every) = (
      minus_one,
      t,
      unfold open_file in rw (ran, eq→== k minus_one e) refl,
      inr (refl, λ j h. every j (omega (arith, valid.bits))),
    )
    open_cases k b ran (first i b' inside clear_here before same_bits bits sized) =
        let (t', opened, facts) =
          open_file-first t u k b valid good ran
            (first i b' inside clear_here before same_bits bits sized)
            (omega (arith, valid.bits)) in
        (k, t', opened, inl facts)

module _ (t : OpenFilesTable) (h u : ℕ) (valid : IsTable t) (small : h < 100)
    (opened : is_opened t h ≡ ok true) (handle : get_unix_handle t h ≡ ok u) where
  inside : h < t.open_files_map.num_bits
  inside = omega (arith, valid.bits)

  handle_here : get_or t.open_files h 0 ≡ u
  unfolding get_unix_handle
  handle_here = cc (rw (lt→ltb h (length t.open_files) (omega (arith, valid.places))) at handle)

  abbrev closed : OpenFilesTable
  closed = record t {
    open_files = set t.open_files u minus_one;
    open_files_map = cleared t.open_files_map valid.sized h inside;
  }

  -- A Unix handle that is no place of the array is written through all the same.
  pub close_file_outside : 100 ≤ u → close_file t h ≡ out_of_bounds
  unfolding close_file write_file_slot
  close_file_outside big =
      rw
        (
          opened,
          clear_lem t.open_files_map valid.sized h inside,
          handle_here,
          le→ltb u (length t.open_files) (omega (arith, valid.places)),
        )
        refl

  close_file_inside : u < 100 → close_file t h ≡ ok (u, closed)
  unfolding close_file write_file_slot
  close_file_inside low =
      rw
        (
          opened,
          clear_lem t.open_files_map valid.sized h inside,
          handle_here,
          lt→ltb u (length t.open_files) (omega (arith, valid.places)),
        )
        refl

  -- Closing a handle makes it closed, and shuts the handle whose number is the Unix handle as well,
  -- though that one keeps its bit and so is never given out again; any other handle stays as it was.
  pub close_file-closed :
      (j : ℕ)
      → u < 100
      → u ≢ h
      → j < 100
      → j ≢ h
      → j ≢ u
      → (t' : OpenFilesTable) × (close_file t h ≡ ok (u, t'))
        × (is_opened t' h ≡ ok false)
        × (is_opened t' u ≡ ok false)
        × (bit t'.open_files_map u ≡ bit t.open_files_map u)
        × (is_opened t' j ≡ is_opened t j)
  close_file-closed j low differ low_j not_h not_u = (
    closed,
    close_file_inside low,
    is_opened_lem closed h inside
        ∙ ap ok (rw (bit-cleared t.open_files_map valid.sized h inside h, eq→== h h refl) refl),
    is_opened_lem closed u (omega (arith, valid.bits))
        ∙ ap ok (
            rw (get_or-set_self t.open_files u minus_one 0 (omega (arith, valid.places)))
              (and-false _)),
    bit-cleared t.open_files_map valid.sized h inside u ∙ rw (ne→== h u (λ e. differ (sym e))) refl,
    is_opened_lem closed j (omega (arith, valid.bits))
        ∙ ap ok (
            rw
              (
                bit-cleared t.open_files_map valid.sized h inside j,
                ne→== h j (λ e. not_h (sym e)),
                get_or-set_ne t.open_files u j minus_one 0 (λ e. not_u (sym e)),
              )
              refl)
        ∙ sym (is_opened_lem t j (omega (arith, valid.bits))),
  )

-- ===== src/Text/Laws.antt =====
-- Laws of the text functions: equality, prefixes, searching, cutting, C strings.
use distributed_ascii_server.Prelude.{
  ℕ, suc, ◌+◌, ◌≤◌, ◌≡◌, ◌≢◌, refl, ap, ◌∙◌, inl, inr, true, false, none, some, [], ◌∷◌, ◌++◌,
  append_assoc, arith, length, take, drop, All, Bool-cases, le→ltb, length-append, drop-length,
  take-length, take_all,
}
use distributed_ascii_server.Text.{
  Bytes, done, eq_bytes, starts_with, find, find_from, rfind, contains, substr, c_str,
}

pub eq_bytes_refl : (s : Bytes) → eq_bytes s s ≡ true
unfolding eq_bytes
eq_bytes_refl [] = refl
eq_bytes_refl (a ∷ s) = ground (arith, eq_bytes_refl s)

pub eq_bytes→eq : (s t : Bytes) → eq_bytes s t ≡ true → s ≡ t
unfolding eq_bytes
eq_bytes→eq [] [] h = refl
eq_bytes→eq [] (b ∷ t) h = cc
eq_bytes→eq (a ∷ s) [] h = cc
eq_bytes→eq (a ∷ s) (b ∷ t) h = ground (arith, eq_bytes→eq s t)

pub eq_bytes-ne : (s t : Bytes) → s ≢ t → eq_bytes s t ≡ false
eq_bytes-ne s t h = elim (Bool-cases (eq_bytes s t)) [
  | inl e ↦ absurd (h (eq_bytes→eq s t e))
  | inr e ↦ e
]

pub starts_with-append : (p s : Bytes) → starts_with p (p ++ s) ≡ true
unfolding starts_with
starts_with-append [] s = refl
starts_with-append (a ∷ p) s = ground (arith, starts_with-append p s)

pub starts_with-drop : (p s : Bytes) → starts_with p s ≡ true → p ++ drop (length p) s ≡ s
unfolding starts_with
starts_with-drop [] s h = refl
starts_with-drop (a ∷ p) [] h = cc
starts_with-drop (a ∷ p) (b ∷ s) h = ground (arith, starts_with-drop p s)

pub find-prefix : (p s : Bytes) → find p (p ++ s) ≡ some 0
unfolding find
find-prefix [] [] = refl
find-prefix [] (c ∷ s) = refl
find-prefix (a ∷ p) s = rw (starts_with-append (a ∷ p) s)

-- A byte that does not occur.
abbrev pub Free : ℕ → Bytes → Type 0
Free c s = All (λ x. x ≢ c) s

pub find_byte : (c : ℕ) (s t : Bytes) → Free c s → find (c ∷ []) (s ++ c ∷ t) ≡ some (length s)
unfolding find starts_with
find_byte c [] t h = ground arith
find_byte c (x ∷ s) t h = ground (arith, find_byte c s t h.1)

pub find_byte-none : (c : ℕ) (s : Bytes) → Free c s → find (c ∷ []) s ≡ none
unfolding find starts_with
find_byte-none c [] h = refl
find_byte-none c (x ∷ s) h = ground (arith, find_byte-none c s h.1)

pub contains-none : (p s : Bytes) → contains p s ≡ false → find p s ≡ none
unfolding contains
contains-none p s h = ground arith

pub substr_in :
    (s : Bytes) (pos n : ℕ) → pos ≤ length s → substr s pos n ≡ done (take n (drop pos s))
unfolding substr
substr_in s pos n h = rw (le→ltb _ _ h)

-- Cutting out the middle of three parts.
pub substr_middle :
    (a b c : Bytes) (pos n : ℕ)
    → pos ≡ length a
    → n ≡ length b
    → substr (a ++ b ++ c) pos n ≡ done b
substr_middle a b c pos n p q =
    rw (p, q)
      (substr_in (a ++ b ++ c) (length a) (length b)
          (omega (arith, length-append {0} (a ++ b) c, length-append {0} a b))
        ∙ ap done (
            ap (take (length b))
              (ap (drop (length a)) (append_assoc a b c) ∙ drop-length a (b ++ c))
            ∙ take-length b c))

-- The same, where the parts nest to the right and the text is equal to theirs.
pub substr_part :
    (s a b c : Bytes) (pos n : ℕ)
    → s ≡ a ++ (b ++ c)
    → pos ≡ length a
    → n ≡ length b
    → substr s pos n ≡ done b
substr_part s a b c pos n e p q = rw (e, ← append_assoc) (substr_middle a b c pos n p q)

-- Cutting to the end.
pub substr_rest :
    (s a b : Bytes) (pos n : ℕ)
    → s ≡ a ++ b
    → pos ≡ length a
    → length b ≤ n
    → substr s pos n ≡ done b
substr_rest s a b pos n e p q =
    rw (e, p)
      (substr_in (a ++ b) (length a) n (omega (arith, length-append {0} a b))
        ∙ ap done (ap (take n) (drop-length a b) ∙ take_all n b q))

pub c_str_whole : (s : Bytes) → Free 0 s → c_str s ≡ s
unfolding c_str
c_str_whole [] h = refl
c_str_whole (c ∷ s) h = ground (arith, c_str_whole s h.1)

pub c_str_nul : (s t : Bytes) → Free 0 s → c_str (s ++ 0 ∷ t) ≡ s
unfolding c_str
c_str_nul [] t h = refl
c_str_nul (c ∷ s) t h = ground (arith, c_str_nul s t h.1)

pub c_str-Free : (s : Bytes) → Free 0 (c_str s)
unfolding c_str
c_str-Free [] = tt
c_str-Free (c ∷ s) = ground (arith, c_str-Free s)

-- The first place of a word is found after a text without the word's first byte.
pub find_word :
    (c : ℕ) (p s t : Bytes) → Free c s → find (c ∷ p) (s ++ ((c ∷ p) ++ t)) ≡ some (length s)
unfolding find
find_word c p [] t h = rw (starts_with-append (c ∷ p) t) refl
find_word c p (x ∷ s) t h =
    let differs : starts_with (c ∷ p) ((x ∷ s) ++ ((c ∷ p) ++ t)) ≡ false =
      unfold starts_with in ground (arith, h.0) in
    rw (differs, find_word c p s t h.1) (ap some (omega arith))

pub contains-find : (p s : Bytes) (i : ℕ) → find p s ≡ some i → contains p s ≡ true
unfolding contains
contains-find p s i h = rw (h, contains) refl

pub find_from_middle :
    (p a b : Bytes) (start i : ℕ)
    → start ≡ length a
    → find p b ≡ some i
    → find_from p (a ++ b) start ≡ some (start + i)
unfolding find_from
find_from_middle p a b start i e h =
    rw
      (
        e,
        le→ltb (length (a ++ b)) (length a) (omega (arith, length-append {0} a b)),
        drop-length a b,
        h,
      )
      refl

-- Reading a byte from the end of a text.
pub length-c_str-le : (s : Bytes) → length (c_str s) ≤ length s
unfolding c_str
length-c_str-le [] = omega arith
length-c_str-le (c ∷ s) = ground (arith, length-c_str-le s)

-- The last place of a word.
pub rfind-cons : (p s : Bytes) (c i : ℕ) → rfind p s ≡ some i → rfind p (c ∷ s) ≡ some (suc i)
unfolding rfind
rfind-cons p s c i h = rw (h, rfind) refl

pub rfind_end : (p s : Bytes) → rfind p p ≡ some 0 → rfind p (s ++ p) ≡ some (length s)
rfind_end p [] h = h
rfind_end p (c ∷ s) h = rfind-cons p (s ++ p) c (length s) (rfind_end p s h)

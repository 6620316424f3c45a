-- ===== src/Text/Split.antt =====
-- The loop by which the protocol code cuts a text at its slashes, and what it computes.
use distributed_ascii_server.Prelude.{
  ℕ, zero, suc, ◌<◌, ◌≡◌, ◌≢◌, refl, sym, ap, inl, inr, none, some, List, [], ◌∷◌, ◌++◌, arith,
  ◌==◌, if◌then◌else◌, length, take, drop, Bool-cases, Option-cases, length-drop, ne→==,
}
use distributed_ascii_server.Text.{Bytes, Run, done, no_fuel, ◌>>=◌, starts_with, find, slash}
use distributed_ascii_server.Text.Laws.{Free, find_byte-none}

-- while ((pos = content.find('/')) != npos) { tokens.push_back(content.substr(0, pos));
--   content.erase(0, pos + 1); }  tokens.push_back(content);
unfoldable pub split_loop : ℕ → Bytes → Run (List Bytes)
split_loop zero content = no_fuel
split_loop (suc fuel) content = elim (find slash content) [
  | none ↦ done (content ∷ [])
  | some pos ↦
      split_loop fuel (drop (suc pos) content) >>= λ tokens. done (take pos content ∷ tokens)
]

-- Every round removes at least the slash, so the length of the text is fuel enough.
unfoldable pub split : Bytes → Run (List Bytes)
unfolding split_loop
split content = split_loop (suc (length content)) content

-- The parts between slashes, by recursion on the text.
abbrev glue : ℕ → List Bytes → List Bytes
glue c [] = (c ∷ []) ∷ []
glue c (t ∷ ts) = (c ∷ t) ∷ ts

unfoldable pub parts : Bytes → List Bytes
parts [] = [] ∷ []
parts (c ∷ s) = if c == b'/' then [] ∷ parts s else glue c (parts s)

unfoldable pub join : List Bytes → Bytes
join [] = []
join (t ∷ []) = t
join (t ∷ u ∷ ts) = t ++ b'/' ∷ join (u ∷ ts)

parts-cons : (s : Bytes) → (t : Bytes) × (ts : List Bytes) × (parts s ≡ t ∷ ts)
unfolding parts
parts-cons [] = ([], [], refl)
parts-cons (c ∷ s) = elim (Bool-cases (c == b'/')) [
  | inl e ↦ ([], parts s, rw e)
  | inr e ↦ let (t, ts, h) = parts-cons s in (c ∷ t, ts, rw (e, h))
]

-- One round of the loop against the recursive reading.
parts-find :
    (s : Bytes) (pos : ℕ)
    → find slash s ≡ some pos
    → (parts s ≡ take pos s ∷ parts (drop (suc pos) s)) × (pos < length s)
unfolding parts find starts_with
parts-find [] pos h = cc
parts-find (c ∷ s) zero h = ground arith
parts-find (c ∷ s) (suc pos) h = ground (arith, parts-find s pos)

parts-none : (s : Bytes) → find slash s ≡ none → parts s ≡ s ∷ []
unfolding parts find starts_with
parts-none [] h = refl
parts-none (c ∷ s) h = ground (arith, parts-none s)

pub split_loop-eq-parts :
    (fuel : ℕ) (s : Bytes) → length s < fuel → split_loop fuel s ≡ done (parts s)
unfolding split_loop
split_loop-eq-parts zero s h = elim h [ ]
split_loop-eq-parts (suc fuel) s h = elim (Option-cases (find slash s)) [
  | inl e ↦ rw (e, split_loop) (ap done (sym (parts-none s e)))
  | inr (pos, e) ↦
      let (here, short) = parts-find s pos e in
      rw
        (
          e,
          split_loop,
          split_loop-eq-parts fuel (drop (suc pos) s) (omega (arith, length-drop {0} (suc pos) s)),
          here,
        )
        refl
]

-- The loop always ends, and its tokens are the parts between the slashes.
pub split-eq-parts : (s : Bytes) → split s ≡ done (parts s)
unfolding split
split-eq-parts s = split_loop-eq-parts (suc (length s)) s (omega arith)

join-glue : (c : ℕ) (ts : List Bytes) → ts ≢ [] → join (glue c ts) ≡ c ∷ join ts
unfolding join
join-glue c [] h = absurd (h refl)
join-glue c (t ∷ []) h = refl
join-glue c (t ∷ u ∷ ts) h = refl

pub join-parts : (s : Bytes) → join (parts s) ≡ s
unfolding parts join
join-parts [] = refl
join-parts (c ∷ s) =
    let (t, ts, h) = parts-cons s in
    elim (Bool-cases (c == b'/')) [
      | inl e ↦ ground (arith, join-parts s, h)
      | inr e ↦ rw (e, join-glue c (parts s) (λ q. cc)) (ap (λ r. c ∷ r) (join-parts s))
    ]

-- Texts with no slash in them come back as they were joined.
pub parts_whole : (s : Bytes) → Free b'/' s → parts s ≡ s ∷ []
parts_whole s h = parts-none s (find_byte-none b'/' s h)

pub parts-slash : (s t : Bytes) → Free b'/' s → parts (s ++ b'/' ∷ t) ≡ s ∷ parts t
unfolding parts
parts-slash [] t h = refl
parts-slash (c ∷ s) t h = rw (ne→== c b'/' h.0, parts-slash s t h.1)

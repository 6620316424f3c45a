-- ===== src/Text/Maps.antt =====
-- std::map from texts: the pairs in the order of their keys.
use distributed_ascii_server.Prelude.{
  ◌≡◌, ◌≢◌, refl, sym, ◌∙◌, inl, inr, Bool, true, false, ◌&&◌, ◌||◌, Option, none, some, List, [],
  ◌∷◌, ltb, ◌==◌, if◌then◌else◌, Bool-cases,
}
use distributed_ascii_server.Text.{Bytes, eq_bytes}
use distributed_ascii_server.Text.Laws.{eq_bytes_refl, eq_bytes→eq}

-- std::less on texts.
unfoldable pub less : Bytes → Bytes → Bool
less [] [] = false
less [] (b ∷ t) = true
less (a ∷ s) [] = false
less (a ∷ s) (b ∷ t) = ltb a b || (a == b) && less s t

abbrev pub Map {ℓ} : Type ℓ → Type ℓ
Map V = List (Bytes × V)

unfoldable pub lookup {ℓ} : {V : Type ℓ} → Bytes → Map V → Option V
lookup k [] = none
lookup k ((k', v) ∷ m) = if eq_bytes k' k then some v else lookup k m

-- m[k] = v
unfoldable pub insert {ℓ} : {V : Type ℓ} → Bytes → V → Map V → Map V
insert k v [] = (k, v) ∷ []
insert k v ((k', v') ∷ m) =
    if eq_bytes k' k
    then (k, v) ∷ m
    else if less k k'
    then (k, v) ∷ (k', v') ∷ m
    else (k', v') ∷ insert k v m

unfoldable pub erase {ℓ} : {V : Type ℓ} → Bytes → Map V → Map V
erase k [] = []
erase k ((k', v) ∷ m) = if eq_bytes k' k then erase k m else (k', v) ∷ erase k m

pub lookup-insert {ℓ} :
    {V : Type ℓ} (k : Bytes) (v : V) (m : Map V) → lookup k (insert k v m) ≡ some v
unfolding lookup insert
lookup-insert k v [] = rw (eq_bytes_refl k) refl
lookup-insert k v ((k', v') ∷ m) = elim (Bool-cases (eq_bytes k' k)) [
  | inl e ↦ rw (e, eq_bytes_refl k) refl
  | inr e ↦ elim (Bool-cases (less k k')) [
    | inl l ↦ rw (e, l, eq_bytes_refl k) refl
    | inr l ↦ rw (e, l, e) (lookup-insert k v m)
  ]
]

pub lookup-erase {ℓ} : {V : Type ℓ} (k : Bytes) (m : Map V) → lookup k (erase k m) ≡ none
unfolding lookup erase
lookup-erase k [] = refl
lookup-erase k ((k', v') ∷ m) = elim (Bool-cases (eq_bytes k' k)) [
  | inl e ↦ rw e (lookup-erase k m)
  | inr e ↦ rw (e, e) (lookup-erase k m)
]

pub lookup-erase_ne {ℓ} :
    {V : Type ℓ} (k j : Bytes) (m : Map V) → j ≢ k → lookup j (erase k m) ≡ lookup j m
unfolding lookup erase
lookup-erase_ne k j [] differ = refl
lookup-erase_ne k j ((k', v') ∷ m) differ = elim (Bool-cases (eq_bytes k' k)) [
  | inl e ↦ elim (Bool-cases (eq_bytes k' j)) [
    | inl f ↦ absurd (differ (sym (eq_bytes→eq k' j f) ∙ eq_bytes→eq k' k e))
    | inr f ↦ rw (e, f) (lookup-erase_ne k j m differ)
  ]
  | inr e ↦ elim (Bool-cases (eq_bytes k' j)) [
    | inl f ↦ rw (e, f) refl
    | inr f ↦ rw (e, f) (lookup-erase_ne k j m differ)
  ]
]

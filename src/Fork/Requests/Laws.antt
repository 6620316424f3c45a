-- ===== src/Fork/Requests/Laws.antt =====
-- Which server a drawing is taken from.
use distributed_ascii_server.Prelude.{
  ℕ, ◌≡◌, refl, sym, ◌⊎◌, inl, inr, true, false, none, some, List, [], ◌∷◌, Bool-cases,
}
use distributed_ascii_server.Text.{Bytes}
use distributed_ascii_server.Text.Maps.{Map}
use distributed_ascii_server.Fork.Requests.{has_object, objects_at, find_server}

-- Some entry of the known servers carries this address and port.
abbrev pub IsKnown : Bytes → ℕ → Map (Bytes × ℕ) → Type 0
IsKnown ip port [] = ⊥
IsKnown ip port ((key, (ip', port')) ∷ servers) =
    ((ip' ≡ ip) × (port' ≡ port)) ⊎ IsKnown ip port servers

-- The server that is chosen is a known one and has the object; and none is chosen only if no known
-- server has it.
pub find_server_lem :
    (name : Bytes) (server_objects : Map (List Bytes)) (known : Map (Bytes × ℕ))
    → ((ip : Bytes) × (port : ℕ) × (find_server name server_objects known ≡ some (ip, port))
        × IsKnown ip port known
        × (has_object name (objects_at ip server_objects) ≡ true))
      ⊎ (find_server name server_objects known ≡ none)
        × ((ip : Bytes) (port : ℕ)
            → IsKnown ip port known
            → has_object name (objects_at ip server_objects) ≡ false)
unfolding find_server
find_server_lem name server_objects [] = inr (refl, λ ip port h. absurd h)
find_server_lem name server_objects ((key, (ip', port')) ∷ known) =
    elim (Bool-cases (has_object name (objects_at ip' server_objects))) [
      | inl e ↦ inl (ip', port', rw e refl, inl (refl, refl), e)
      | inr e ↦ elim (find_server_lem name server_objects known) [
        | inl (ip, port, chosen, is_known, has) ↦ inl (ip, port, rw e chosen, inr is_known, has)
        | inr (no_one, lacks) ↦ inr (
          rw e no_one,
          λ ip port h. elim h [
            | inl (same, same_port) ↦ rw (sym same) e
            | inr h' ↦ lacks ip port h'
          ],
        )
      ]
    ]

-- ===== src/Server/Serving.antt =====
-- The threads of the server, with the turns of all clients in any order: what each client is sent.
use distributed_ascii_server.Prelude.{
  ℕ, zero, suc, ◌≡◌, ◌≢◌, refl, sym, ap, ◌∙◌, subst, Option, none, some, List, [], ◌∷◌, All,
}
use distributed_ascii_server.Prelude.Int.{ℤ, pos, negsuc}
use distributed_ascii_server.FileSystem.Disk.{Disk}
use distributed_ascii_server.Server.Run.{
  Stage, Client, Turned, goes_on, finished, fails, task_turn, placed, kept, turn_at,
}
use distributed_ascii_server.Sockets.Net.{Net}
use distributed_ascii_server.Server.Streams.{Connection, Streams, Served}
use distributed_ascii_server.Server.Turns.{IsServed, Progress, task_turn-Progress}
use distributed_ascii_server.Server.Frames.{fd, IsFramed, task_turn-IsFramed}

module _ {U : Type 0} (net : Net U) (laws : Streams net) (d : Disk) where
  open laws use {observe, accept_new, accept_frame}

  abbrev pub Apart : ℤ → List Client → Type 0
  Apart id clients = All (λ other. fd other ≢ id) clients

  -- What is known of a client with an open descriptor, beside the clients that came before it.
  abbrev pub Known : U → ℤ → Stage → List Client → Type 0
  Known u (pos n) stage others = IsServed net laws d u (pos n) stage × Apart (pos n) others
  Known u (negsuc n) stage others = Unit

  abbrev pub Held : U → List Client → Type 0
  Held u [] = Unit
  Held u (client ∷ clients) = Known u (fd client) client.stage clients × Held u clients

  abbrev pub Same : U → U → ℤ → Type 0
  Same u u' (pos n) = observe u' (pos n) ≡ observe u (pos n)
  Same u u' (negsuc n) = Unit

  abbrev pub Frame : U → U → ℤ → Type 0
  Frame u u' id = (other : ℤ) → other ≢ id → observe u' other ≡ observe u other

  Known-Same :
      (u u' : U) (id : ℤ) (stage : Stage) (others : List Client)
      → Same u u' id
      → Known u id stage others
      → Known u' id stage others
  Known-Same u u' (negsuc n) stage others same known = tt
  Known-Same u u' (pos n) stage others same known = (
    (ap Connection.opened same ∙ known.0.0, subst (λ c. Served d c stage) (sym same) known.0.1),
    known.1,
  )

  pub Held-Same :
      (u u' : U) (clients : List Client)
      → All (λ c. Same u u' (fd c)) clients
      → Held u clients
      → Held u' clients
  Held-Same u u' [] same held = tt
  Held-Same u u' (c ∷ clients) same held =
      (Known-Same u u' (fd c) c.stage clients same.0 held.0, Held-Same u u' clients same.1 held.1)

  Same-Frame : (u u' : U) (id other : ℤ) → Frame u u' id → other ≢ id → Same u u' other
  Same-Frame u u' id (pos n) frame away = frame (pos n) away
  Same-Frame u u' id (negsuc n) frame away = tt

  -- A negative descriptor is apart from those that a client holds.
  Same-negative : (u u' : U) (n : ℕ) (other : ℤ) → Frame u u' (negsuc n) → Same u u' other
  Same-negative u u' n (pos m) frame = frame (pos m) (λ e. cc)
  Same-negative u u' n (negsuc m) frame = tt

  All-Same :
      (u u' : U) (id : ℤ) (others : List Client)
      → Frame u u' id
      → Apart id others
      → All (λ c. Same u u' (fd c)) others
  All-Same u u' id [] frame apart = tt
  All-Same u u' id (c ∷ others) frame apart =
      (Same-Frame u u' id (fd c) frame apart.0, All-Same u u' id others frame apart.1)

  All-Same_negative :
      (u u' : U) (n : ℕ) (others : List Client)
      → Frame u u' (negsuc n)
      → All (λ c. Same u u' (fd c)) others
  All-Same_negative u u' n [] frame = tt
  All-Same_negative u u' n (c ∷ others) frame =
      (Same-negative u u' n (fd c) frame, All-Same_negative u u' n others frame)

  -- The clients apart from the one that has had a turn, or has come.
  abbrev pub Away : ℤ → List Client → Type 0
  Away (pos n) others = Apart (pos n) others
  Away (negsuc n) others = Unit

  Known-Away :
      (u : U) (id : ℤ) (stage : Stage) (others : List Client)
      → Known u id stage others
      → Away id others
  Known-Away u (pos n) stage others known = known.1
  Known-Away u (negsuc n) stage others known = tt

  pub Held-Frame :
      (u u' : U) (id : ℤ) (others : List Client)
      → Frame u u' id
      → Away id others
      → Held u others
      → Held u' others
  Held-Frame u u' (pos n) others frame away held =
      Held-Same u u' others (All-Same u u' (pos n) others frame away) held
  Held-Frame u u' (negsuc n) others frame away held =
      Held-Same u u' others (All-Same_negative u u' n others frame) held

  Known-next :
      (u u' : U) (id : ℤ) (stage : Stage) (client : Client) (others : List Client)
      → fd client ≡ id
      → (IsServed net laws d u id stage → IsServed net laws d u' id client.stage)
      → Known u id stage others
      → Known u' id client.stage others
  Known-next u u' (pos n) stage client others same step known = (step known.0, known.1)
  Known-next u u' (negsuc n) stage client others same step known = tt

  -- What holds after a turn: the invariant, and that descriptors apart from all clients' stay so.
  abbrev pub Kept : U → List Client → Option (List Client × U) → Type 0
  Kept u clients none = Unit
  Kept u clients (some (clients', u')) =
      Held u' clients'
      × ((id : ℤ) → Apart id clients → Apart id clients' × (observe u' id ≡ observe u id))

  placed-Kept :
      (client : Client) (clients : List Client) (u : U)
      → Held u (client ∷ clients)
      → (out : Turned U) → IsFramed net laws d u (fd client) out
      → (IsServed net laws d u (fd client) client.stage → Progress net laws d (fd client) out)
      → Kept u (client ∷ clients) (placed net d clients out)
  placed-Kept client clients u held (goes_on next u') framed progress = (
    (
      subst (λ id. Known u' id next.stage clients) (sym framed.0)
          (Known-next u u' (fd client) client.stage next clients framed.0
            (λ known. (progress known).1) held.0),
      Held-Frame u u' (fd client) clients framed.1
          (Known-Away u (fd client) client.stage clients held.0) held.1,
    ),
    λ id apart. ((λ e. apart.0 (sym framed.0 ∙ e), apart.1), framed.1 id (λ e. apart.0 (sym e))),
  )
  placed-Kept client clients u held (finished u') framed progress = (
    Held-Frame u u' (fd client) clients framed
        (Known-Away u (fd client) client.stage clients held.0) held.1,
    λ id apart. (apart.1, framed id (λ e. apart.0 (sym e))),
  )
  placed-Kept client clients u held fails framed progress = tt

  Known-kept :
      (u u' : U) (id : ℤ) (stage : Stage) (others others' : List Client)
      → ((id' : ℤ) → Apart id' others → Apart id' others' × (observe u' id' ≡ observe u id'))
      → Known u id stage others
      → Known u' id stage others'
  Known-kept u u' (negsuc n) stage others others' step known = tt
  Known-kept u u' (pos n) stage others others' step known =
      let (apart, same) = step (pos n) known.1 in
      ((Known-Same u u' (pos n) stage others same known).0, apart)

  kept-Kept :
      (client : Client) (clients : List Client) (u : U)
      → Held u (client ∷ clients)
      → (out : Option (List Client × U)) → Kept u clients out
      → Kept u (client ∷ clients) (kept net d client out)
  kept-Kept client clients u held none rest = tt
  kept-Kept client clients u held (some (clients', u')) rest = (
    (Known-kept u u' (fd client) client.stage clients clients' rest.1 held.0, rest.0),
    λ id apart. let (apart', same) = rest.1 id apart.1 in ((apart.0, apart'), same),
  )

  pub turn_at-Kept :
      (i : ℕ) (clients : List Client) (u : U)
      → Held u clients
      → Kept u clients (turn_at net d i clients u)
  unfolding turn_at
  turn_at-Kept i [] u held = (tt, λ id apart. (tt, refl))
  turn_at-Kept zero (c ∷ clients) u held =
      placed-Kept c clients u held (task_turn net d c.socket c.stage u)
        (task_turn-IsFramed net laws d c.socket c.stage u)
        (task_turn-Progress net laws d c.socket c.stage u)
  turn_at-Kept (suc i) (c ∷ clients) u held =
      kept-Kept c clients u held (turn_at net d i clients u) (turn_at-Kept i clients u held.1)

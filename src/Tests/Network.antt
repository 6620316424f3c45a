-- ===== src/Tests/Network.antt =====
-- A small network, at which the socket classes and the server run.
use distributed_ascii_server.Prelude.{
  subst, ℕ, ◌+◌, ◌≡◌, ◌≢◌, refl, Bool, true, false, some, List, [], ◌∷◌, ◌++◌, map, take, length,
  length-take, Bool-cases, inl, inr, if◌then◌else◌, arith, ◌≤◌,
}
use distributed_ascii_server.Prelude.Int.{
  ℤ, pos, negsuc, minus_one, is_minus_one, eq_int, eq_int_self, eq_int_ne,
}
use distributed_ascii_server.Text.{Bytes}
use distributed_ascii_server.Sockets.Net.{SocketAddress, converted, Net}
use distributed_ascii_server.Sockets.Descriptors.{Descriptors}
use distributed_ascii_server.Server.Task.{bufsize}
use distributed_ascii_server.Server.Streams.{Connection, Streams}

-- `next` is the descriptor that is given out next, `request` what every client sends.
pub record World : Type 0 where
  pub table : ℤ → Connection
  pub next : ℕ
  pub request : List Bytes
  pub addresses : List SocketAddress
  pub answering : SocketAddress → Bool

abbrev pub update : {A : Type 0} → (ℤ → A) → ℤ → A → ℤ → A
update f id a d = if eq_int d id then a else f d

abbrev pub put : World → ℤ → Connection → World
put u id c = record u { table = update u.table id c }

abbrev pub taken : World → World
taken u = record u {
  table =
      update u.table (pos u.next)
        (record { opened = true; sent = u.request; incoming = u.request; outgoing = [] });
  next = u.next + 1;
}

-- The next descriptor, unless it is in use.
abbrev pub new_descriptor : World → ℤ × World
new_descriptor u = if (u.table (pos u.next)).opened then (minus_one, u) else (pos u.next, taken u)

-- A Read delivers what is left of the first part, at most 256 bytes.
abbrev pub read_part : World → ℤ → List Bytes → (ℤ × Bytes) × World
read_part u id [] = ((pos 0, []), u)
read_part u id (part ∷ rest) = (
  (pos (length (take bufsize part)), take bufsize part),
  put u id (record (u.table id) { incoming = rest }),
)

abbrev pub small_net : Net World
small_net = record {
  socket = λ u family type. new_descriptor u;
  close = λ u id. put u id (record (u.table id) { opened = false });
  inet_pton = λ family text. converted text;
  connect = λ u id a. if u.answering a then (pos 0, u) else (minus_one, u);
  getaddrinfo = λ u family host service. (some u.addresses, u);
  set_reuse_addr = λ u id. (pos 0, u);
  bind = λ u id a. (pos 0, u);
  listen = λ u id backlog. (pos 0, u);
  accept = λ u id. new_descriptor u;
  shutdown = λ u id how. (pos 0, u);
  read = λ u id size. read_part u id (u.table id).incoming;
  write = λ u id text. (
    pos (length text),
    put u id (record (u.table id) { outgoing = (u.table id).outgoing ++ text }),
  );
  sendto = λ u id text a size. (pos (length text), u);
  recvfrom = λ u id size. ((pos 0, []), u);
}

abbrev pub shows : World → ℤ → Connection
shows u (negsuc n) = record { opened = false; sent = []; incoming = []; outgoing = [] }
shows u (pos n) = record (u.table (pos n)) {
  sent = map (take bufsize) (u.table (pos n)).sent;
  incoming = map (take bufsize) (u.table (pos n)).incoming;
}

-- An update elsewhere shows nothing.
pub shows-put : (u : World) (id d : ℤ) (c : Connection) → d ≢ id → shows (put u id c) d ≡ shows u d
shows-put u id (negsuc n) c away = refl
shows-put u id (pos n) c away = rw (eq_int_ne (pos n) id away) refl

pub fresh : (u : World) → (shows u (new_descriptor u).0).opened ≡ false
fresh u = elim (Bool-cases (u.table (pos u.next)).opened) [ inl e ↦ rw e refl | inr e ↦ rw e e ]

pub frame_new :
    (u : World) (d : ℤ) → d ≢ (new_descriptor u).0 → shows (new_descriptor u).1 d ≡ shows u d
frame_new u (negsuc n) =
    λ away. elim (Bool-cases (u.table (pos u.next)).opened) [ inl e ↦ refl | inr e ↦ refl ]
frame_new u (pos n) = elim (Bool-cases (u.table (pos u.next)).opened) [
  | inl e ↦ rw e (λ away. refl)
  | inr e ↦ rw e (λ away. rw (eq_int_ne (pos n) (pos u.next) away) refl)
]

-- A connection has come in at a descriptor.
abbrev pub IsNew : World → World → ℤ → Type 0
IsNew u u' id =
    ((shows u id).opened ≡ false)
    × (sent : List Bytes) × (shows u' id
        ≡ record { opened = true; sent = sent; incoming = sent; outgoing = [] })

next-IsNew : (u : World) → (u.table (pos u.next)).opened ≡ false → IsNew u (taken u) (pos u.next)
next-IsNew u e = (e, map (take bufsize) u.request, rw (eq_int_self (pos u.next)) refl)

pub accepted-IsNew :
    (u : World) (n : ℕ) → (new_descriptor u).0 ≡ pos n → IsNew u (new_descriptor u).1 (pos n)
accepted-IsNew u n = elim (Bool-cases (u.table (pos u.next)).opened) [
  | inl e ↦ rw e (λ got. absurd (cc))
  | inr e ↦ rw e (λ got. subst (IsNew u (taken u)) got (next-IsNew u e))
]

part_read :
    (u : World) (n : ℕ) (part : Bytes) (rest incoming : List Bytes)
    → map (take bufsize) incoming ≡ part ∷ rest
    → ((read_part u (pos n) incoming).0 ≡ (pos (length part), part))
      × (length part ≤ bufsize)
      × (shows (read_part u (pos n) incoming).1 (pos n)
          ≡ record (shows u (pos n)) { incoming = rest })
part_read u n part rest [] shown = absurd (cc)
part_read u n part rest (b ∷ bs) shown =
    let p : part ≡ take bufsize b = cc in
    let r : rest ≡ map (take bufsize) bs = cc in
    rw (p, r) (refl, omega (arith, length-take bufsize b), rw (eq_int_self (pos n)) refl)

none_read :
    (u : World) (n : ℕ) (incoming : List Bytes)
    → map (take bufsize) incoming ≡ []
    → ((read_part u (pos n) incoming).0 ≡ (pos 0, []))
      × (shows (read_part u (pos n) incoming).1 (pos n) ≡ shows u (pos n))
none_read u n [] shown = (refl, refl)
none_read u n (b ∷ bs) shown = absurd (cc)

pub read_elsewhere :
    (u : World) (id d : ℤ) (incoming : List Bytes)
    → d ≢ id
    → shows (read_part u id incoming).1 d ≡ shows u d
read_elsewhere u id d [] away = refl
read_elsewhere u id d (b ∷ bs) away = shows-put u id d (record (u.table id) { incoming = bs }) away

pub end_at :
    (u : World) (id : ℤ)
    → (shows u id).opened ≡ true
    → (shows u id).incoming ≡ []
    → ((small_net.read u id bufsize).0 ≡ (pos 0, []))
      × (shows (small_net.read u id bufsize).1 id ≡ shows u id)
end_at u (pos n) open' shown = none_read u n (u.table (pos n)).incoming shown
end_at u (negsuc n) open' shown = absurd (cc)

pub part_at :
    (u : World) (id : ℤ) (part : Bytes) (rest : List Bytes)
    → (shows u id).opened ≡ true
    → (shows u id).incoming ≡ part ∷ rest
    → ((small_net.read u id bufsize).0 ≡ (pos (length part), part))
      × (length part ≤ bufsize)
      × (shows (small_net.read u id bufsize).1 id ≡ record (shows u id) { incoming = rest })
part_at u (pos n) part rest open' shown = part_read u n part rest (u.table (pos n)).incoming shown
part_at u (negsuc n) part rest open' shown = absurd (cc)

pub write_at :
    (u : World) (id : ℤ) (text : Bytes)
    → (shows u id).opened ≡ true
    → shows (small_net.write u id text).1 id
      ≡ record (shows u id) { outgoing = (shows u id).outgoing ++ text }
write_at u (pos n) text open' = rw (eq_int_self (pos n)) refl
write_at u (negsuc n) text open' = absurd (cc)

pub close_at :
    (u : World) (id : ℤ) → shows (small_net.close u id) id ≡ record (shows u id) { opened = false }
close_at u (pos n) = rw (eq_int_self (pos n)) refl
close_at u (negsuc n) = refl

abbrev pub streams : Streams small_net
streams = record {
  observe = shows;
  accept_new = λ u server n. accepted-IsNew u n;
  accept_frame = λ u server d away. frame_new u d away;
  read_end = end_at;
  read_next = part_at;
  read_frame = λ u id d. read_elsewhere u id d (u.table id).incoming;
  write_sends = write_at;
  write_frame = λ u id d text away.
      shows-put u id d (record (u.table id) { outgoing = (u.table id).outgoing ++ text }) away;
  close_shuts = close_at;
  close_frame = λ u id d away. shows-put u id d (record (u.table id) { opened = false }) away;
}

pub opens :
    (u : World) (d : ℤ)
    → (shows (new_descriptor u).1 d).opened ≡ (
        if is_minus_one (new_descriptor u).0
        then (shows u d).opened
        else (if eq_int d (new_descriptor u).0 then true else (shows u d).opened))
opens u (negsuc n) = elim (Bool-cases (u.table (pos u.next)).opened) [
  | inl e ↦ rw e refl
  | inr e ↦ rw e refl
]
opens u (pos n) = elim (Bool-cases (u.table (pos u.next)).opened) [
  | inl e ↦ rw e refl
  | inr e ↦ rw e (ground arith)
]

pub closes :
    (u : World) (id d : ℤ)
    → (shows (small_net.close u id) d).opened ≡ (if eq_int d id then false else (shows u d).opened)
closes u id (negsuc n) = ground arith
closes u id (pos n) = ground arith

abbrev pub descriptors : Descriptors small_net
descriptors = record {
  opened = λ u d. (shows u d).opened;
  minus_one_closed = λ u. refl;
  socket_fresh = λ u family type. fresh u;
  socket_opens = λ u family type d. opens u d;
  close_closes = closes;
}

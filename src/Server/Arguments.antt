-- ===== src/Server/Arguments.antt =====
-- The arguments that main accepts, and the child of the mode of processes.
use distributed_ascii_server.Prelude.{
  ℕ, zero, suc, ◌+◌, ◌-◌, ◌*◌, ◌/◌, ◌%◌, ◌≤◌, ◌<◌, ◌≡◌, refl, sym, ap, ◌∙◌, true, ◌&&◌, inl, inr,
  some, List, [], ◌∷◌, ◌++◌, All, arith, ltb, leb, ◌==◌, Bool-cases, ltb→lt, subst, ◌≢◌,
  if◌then◌else◌, length, replicate, lt→ltb,
}
use distributed_ascii_server.Sockets.Net.{Net}
use distributed_ascii_server.Sockets.VSocket.{VSocket, close_socket}
use distributed_ascii_server.Sockets.Stream.{read, write}
use distributed_ascii_server.Server.Streams.{Connection, Streams}
use distributed_ascii_server.Text.{Bytes, c_str}
use distributed_ascii_server.Simulation.Adapter.{stoi, stoi_digits}
use distributed_ascii_server.Server.Http.{digits_from, to_string}
use distributed_ascii_server.Server.Task.{bufsize}
use distributed_ascii_server.Server.Main.{exits, runs, configure, text_in, process_child}

abbrev Digits : Bytes → Type 0
Digits = All (λ c. (b'0' ≤ c) × (c ≤ b'9'))

value : ℕ → Bytes → ℕ
value n [] = n
value n (c ∷ s) = value (n * 10 + (c - b'0')) s

stoi_digits-value : (s : Bytes) (n : ℕ) → Digits s → stoi_digits n true s ≡ some (value n s)
unfolding stoi_digits value
stoi_digits-value [] n h = refl
stoi_digits-value (c ∷ s) n h = ground (arith, stoi_digits-value s (n * 10 + (c - b'0')) h.1)

-- 10 ^ k
bound : ℕ → ℕ
bound zero = 1
bound (suc k) = 10 * bound k

-- stoi of a text of digits alone.
stoi-Digits :
    (n c : ℕ) (s : Bytes)
    → Digits (c ∷ s)
    → value 0 (c ∷ s) ≡ n
    → n < 2147483648
    → stoi (c ∷ s) ≡ some n
unfolding stoi stoi_digits value
stoi-Digits n c s h worth small = ground (arith, stoi_digits-value s (c - b'0') h.1)

-- What to_string writes: digits, at least one, that stand for the number.
record Writes (n : ℕ) (out s : Bytes) : Type 0 where
  first : ℕ
  rest : Bytes
  shape : s ≡ first ∷ rest
  digits : Digits s
  worth : value 0 s ≡ value n out

-- The last digit to be written.
last_digit : (n : ℕ) (out : Bytes) → Digits out → n < 10 → Writes n out ((b'0' + n % 10) ∷ out)
unfolding value
last_digit n out clean small = record {
  first = b'0' + n % 10;
  rest = out;
  shape = refl;
  digits = (omega arith, clean);
  worth = ap (λ m. value m out) (omega arith);
}

one_more : (n : ℕ) (out s : Bytes) → Writes (n / 10) ((b'0' + n % 10) ∷ out) s → Writes n out s
unfolding value
one_more n out s w = record {
  first = w.first;
  rest = w.rest;
  shape = w.shape;
  digits = w.digits;
  worth = w.worth ∙ ap (λ m. value m out) (omega arith);
}

digits_from-Writes :
    (fuel n : ℕ) (out : Bytes)
    → Digits out
    → n < bound (suc fuel)
    → Writes n out (digits_from (suc fuel) n out)
unfolding digits_from bound
digits_from-Writes zero n out clean small =
    rw (lt→ltb n 10 (omega arith)) (last_digit n out clean (omega arith))
digits_from-Writes (suc fuel) n out clean small = elim (Bool-cases (ltb n 10)) [
  | inl e ↦ rw e (last_digit n out clean (ltb→lt n 10 e))
  | inr e ↦ rw e (
      one_more n out (digits_from (suc fuel) (n / 10) ((b'0' + n % 10) ∷ out)) (
        digits_from-Writes fuel (n / 10) ((b'0' + n % 10) ∷ out) (omega arith, clean)
          (omega arith)))
]

-- std::stoi reads back what std::to_string writes.
stoi-to_string : (n : ℕ) → n < 2147483648 → stoi (to_string n) ≡ some n
unfolding to_string
stoi-to_string n small =
    let w : Writes n [] (digits_from 20 n []) =
      unfold bound in digits_from-Writes 19 n [] tt (omega arith) in
    ap stoi w.shape
    ∙ stoi-Digits n w.first w.rest (subst Digits w.shape w.digits)
        (ap (value 0) (sym w.shape) ∙ unfold value in w.worth) small

-- main with an address, and a port and a mode that are written out in decimal and are from 0 up to
-- 2 ^ 31 - 1: it runs a server with just these where the port is at most 65535 and the mode is 0 or 1,
-- and returns 1 for all others of these numbers.
pub configure_arguments :
    (program ip : Bytes) (port mode : ℕ)
    → port < 2147483648
    → mode < 2147483648
    → configure (program ∷ ip ∷ to_string port ∷ to_string mode ∷ []) ≡ (
        if leb port 65535 && leb mode 1
        then runs (record { ip = ip; port = port; usar_hilos = mode == 1 })
        else exits)
unfolding configure
configure_arguments program ip port mode port_small mode_small =
    rw (stoi-to_string port port_small, stoi-to_string mode mode_small) (ground arith)

-- The text of a buffer that Read did not fill.
text_in-filled : (n : ℕ) (part : Bytes) → text_in (part ++ replicate (suc n) 0) ≡ some (c_str part)
unfolding text_in c_str
text_in-filled n [] = refl
text_in-filled n (c ∷ part) = elim (Bool-cases (c == 0)) [
  | inl e ↦ rw e refl
  | inr e ↦ rw (e, text_in-filled n part) refl
]

-- In the mode of processes a client is sent back the text of its own first message, and not a reply
-- to it: where the message is shorter than the buffer, and the server's socket is another one.
pub process_child_echoes :
    {U : Type 0} (net : Net U) (laws : Streams net) (server client : VSocket) (u : U) (part : Bytes)
    (rest : List Bytes)
    → server.id_socket ≢ client.id_socket
    → (laws.observe u client.id_socket).opened ≡ true
    → (laws.observe u client.id_socket).incoming ≡ part ∷ rest
    → length part < bufsize
    → (u' : U) × (process_child net server client u ≡ some u')
      × ((laws.observe u' client.id_socket).outgoing
          ≡ (laws.observe u client.id_socket).outgoing ++ c_str part)
unfolding process_child close_socket read write
process_child_echoes net laws server client u part rest away open' sends short =
    let id = client.id_socket in
    let closed = net.close u server.id_socket in
    let same = laws.close_frame u server.id_socket id (λ e. away (sym e)) in
    let (result, fits, now) =
      laws.read_next closed id part rest (ap Connection.opened same ∙ open')
        (ap Connection.incoming same ∙ sends) in
    let read' = (net.read closed id bufsize).1 in
    let wrote =
      laws.write_sends read' id (c_str part)
        (ap Connection.opened now ∙ ap Connection.opened same ∙ open') in
    let room : bufsize - length part ≡ suc (bufsize - length part - 1) = omega arith in
    (
      (net.write read' id (c_str part)).1,
      rw (result, room, text_in-filled (bufsize - length part - 1) part) refl,
      ap Connection.outgoing wrote
          ∙ ap (λ o. o.outgoing ++ c_str part) now
          ∙ ap (λ o. o.outgoing ++ c_str part) same,
    )

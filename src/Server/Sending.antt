-- ===== src/Server/Sending.antt =====
-- The two loops of task: what is read before the request is handled, and what is sent.
use distributed_ascii_server.Prelude.{
  ℕ, zero, suc, ◌+◌, ◌-◌, ◌≤◌, ◌<◌, ◌≡◌, refl, sym, ap, ◌∙◌, ◌⊎◌, inl, inr, true, List, [], ◌∷◌,
  ◌++◌, append_assoc, arith, ltb, if◌then◌else◌, length, take, drop, All, All-take, All-drop,
  take-append-drop, drop-drop, length-take, length-drop, Bool-cases, ltb→lt, ltb→le, lt→ltb,
  drop_all, min,
}
use distributed_ascii_server.Text.{Bytes, done, contains, c_str}
use distributed_ascii_server.Text.Laws.{Free, substr_in, c_str_whole}
use distributed_ascii_server.Server.Http.{crlf}
use distributed_ascii_server.Server.Task.{bufsize, read_request, send_loop, send_response}

abbrev pub concat : List Bytes → Bytes
concat [] = []
concat (t ∷ ts) = t ++ concat ts

-- The texts sent from place `sent` on make up the rest of the response, each fits the buffer, and
-- none is empty.
record IsSent (response : Bytes) (sent : ℕ) (chunks : List Bytes) : Type 0 where
  pub whole : concat chunks ≡ drop sent response
  pub small : All (λ t. (length t ≤ bufsize) × (0 < length t)) chunks

abbrev chunk_size : Bytes → ℕ → ℕ
chunk_size response sent =
    if ltb bufsize (length response - sent) then bufsize else length response - sent

-- One round, before the rest is sent.
send_round :
    (response : Bytes) (fuel sent : ℕ) (chunks : List Bytes)
    → Free 0 response
    → sent < length response
    → send_loop fuel response (sent + chunk_size response sent) ≡ done chunks
    → IsSent response (sent + chunk_size response sent) chunks
    → let chunk = take (chunk_size response sent) (drop sent response) in
      (send_loop (suc fuel) response sent ≡ done (chunk ∷ chunks))
      × IsSent response sent (chunk ∷ chunks)
unfolding send_loop
send_round response fuel sent chunks clean inside ran rest = (
  rw (lt→ltb _ _ inside, substr_in response sent size (omega arith), ran, plain) refl,
  record {
    whole =
        ap (λ (t : Bytes). chunk ++ t) (rest.whole ∙ sym (drop-drop size sent response))
        ∙ take-append-drop size (drop sent response);
    small = (
      (omega (arith, bounds, measure, measure'), omega (arith, bounds, measure, measure')),
      rest.small,
    );
  },
)
  where
    size : ℕ
    size = chunk_size response sent

    chunk : Bytes
    chunk = take size (drop sent response)

    bounds : (0 < size) × (size ≤ bufsize) × (size ≤ length response - sent)
    bounds = (ground arith, ground arith, ground arith)

    measure : length chunk ≡ min size (length (drop sent response))
    measure = length-take size (drop sent response)

    measure' : length (drop sent response) ≡ length response - sent
    measure' = length-drop sent response

    plain : c_str chunk ≡ chunk
    plain = c_str_whole chunk (All-take _ size _ (All-drop _ sent response clean))

send_loop-IsSent :
    (response : Bytes) (fuel sent : ℕ)
    → Free 0 response
    → length response - sent < fuel
    → (chunks : List Bytes) × (send_loop fuel response sent ≡ done chunks)
      × IsSent response sent chunks
unfolding send_loop
send_loop-IsSent response zero sent clean enough = absurd (omega arith)
send_loop-IsSent response (suc fuel) sent clean enough =
    elim (Bool-cases (ltb sent (length response))) [
      | inr stop ↦ (
        [],
        rw stop refl,
        record { whole = sym (drop_all sent response (ltb→le _ _ stop)); small = tt },
      )
      | inl go ↦
          let inside = ltb→lt _ _ go in
          let next = sent + chunk_size response sent in
          let (chunks, ran, rest) =
            send_loop-IsSent response fuel next clean (ground (arith, inside)) in
          let round = send_round response fuel sent chunks clean inside ran rest in
          (_, round.0, round.1)
    ]

-- A response with no NUL is sent whole: the loop ends, and the texts that it writes, one after the
-- other, are the response. Each fits the buffer and none is empty.
pub send_response_whole :
    (response : Bytes)
    → Free 0 response
    → (chunks : List Bytes) × (send_response response ≡ done chunks)
      × (concat chunks ≡ response)
      × All (λ t. (length t ≤ bufsize) × (0 < length t)) chunks
unfolding send_response
send_response_whole response clean =
    let (chunks, ran, sent) =
      send_loop-IsSent response (suc (length response)) 0 clean (omega arith) in
    (chunks, ran, sent.whole, sent.small)

-- What the peer sends before it closes the connection, which shows as an empty read.
abbrev pub until_closed : List Bytes → Bytes
until_closed [] = []
until_closed ([] ∷ reads) = []
until_closed ((c ∷ buffer) ∷ reads) = (c ∷ buffer) ++ until_closed reads

-- What is read is the beginning of what the peer sends; if it is not all of that, it holds the end
-- of an HTTP header.
pub read_request-until_closed :
    (reads : List Bytes) (before : Bytes)
    → (rest : Bytes) × (read_request reads before ++ rest ≡ before ++ until_closed reads)
      × ((rest ≡ []) ⊎ (contains (crlf ++ crlf) (read_request reads before) ≡ true))
unfolding read_request
read_request-until_closed [] before = ([], refl, inl refl)
read_request-until_closed ([] ∷ reads) before = ([], refl, inl refl)
read_request-until_closed ((c ∷ buffer) ∷ reads) before =
    elim (Bool-cases (contains (crlf ++ crlf) (before ++ (c ∷ buffer)))) [
      | inl e ↦ (
        until_closed reads,
        rw e (append_assoc before (c ∷ buffer) (until_closed reads)),
        inr (rw e e),
      )
      | inr e ↦
          let (rest, whole, stop) = read_request-until_closed reads (before ++ (c ∷ buffer)) in
          (rest, rw e (whole ∙ append_assoc before (c ∷ buffer) (until_closed reads)), rw e stop)
    ]

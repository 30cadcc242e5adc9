-- ===== src/Engine/Mux/Traffic.antt =====
-- `onTraffic` of pkg/engine/backend_mux.go: replies from a node, and redirections to other nodes.
pub mod Redirects
pub mod Total
pub mod Answers
use pluster.Prelude.{
  ℕ, zero, suc, ◌+◌, ◌*◌, ◌-◌, Bool, true, false, ◌&&◌, not, Option, none, some, List, [], ◌∷◌,
  ◌++◌, leb, ltb, ◌==◌, if◌then◌else◌, Bytes, length, take, drop,
}
use pluster.Proto.Outcome.{Outcome, ok, incomplete, invalid, panicked, stuck, ◌>>=◌}
use pluster.Proto.Int64.{half_word}
use pluster.Proto.Scan.{ErrorKind, kind_moved, kind_ask, kind_none, kind_other, Scanned, scan_value}
use pluster.Engine.Mux.Conn.{PendingReq, MuxConn, next_pending}
use pluster.Engine.Mux.{
  Mux, Effect, respond, respond_part, refresh, flushed_clients, Env, with_conn, send, send_ask,
  flush_backend_writes,
}

-- What stands before the first space, and behind it.
unfoldable pub cut_space : Bytes → Option (Bytes × Bytes)
cut_space [] = none
cut_space (c ∷ cs) =
    let rest = cut_space cs in
    if c == b' '
    then some ([], cs)
    else elim rest [ none ↦ none | some (before, after) ↦ some (c ∷ before, after) ]

-- `strconv.Atoi`, of which the callers use whether it fails.
unfoldable pub atoi_digits : ℕ → Bytes → Option ℕ
atoi_digits acc [] = some acc
atoi_digits acc (c ∷ cs) =
    let rest = atoi_digits (acc * 10 + (c - b'0')) cs in
    if leb b'0' c && leb c b'9' then rest else none

abbrev pub fits : ℕ → Option ℕ → Bool
fits bound none = false
fits bound (some n) = leb n bound

abbrev pub digits_fit : ℕ → Bytes → Bool
digits_fit bound [] = false
digits_fit bound (c ∷ cs) = fits bound (atoi_digits 0 (c ∷ cs))

unfoldable pub atoi_ok : Bytes → Bool
unfolding atoi_digits
atoi_ok [] = false
atoi_ok (c ∷ cs) =
    if c == b'-'
    then digits_fit half_word cs
    else if c == b'+'
    then digits_fit (half_word - 1) cs
    else digits_fit (half_word - 1) (c ∷ cs)

-- `parseRedirectionMsg`: the address, or none for an error.
unfoldable pub parse_redirection_msg : Bytes → Option Bytes
unfolding cut_space atoi_ok
parse_redirection_msg msg = elim (cut_space msg) [
  | none ↦ none
  | some (word, rest) ↦ elim (cut_space rest) [
    | none ↦ none
    | some (slot, addr) ↦ if atoi_ok slot then some addr else none
  ]
]

abbrev pub max_mux_redirects : ℕ
max_mux_redirects = 16

-- Where `onTraffic` sends a request on, by the two tests on the kind of the reply.
pub data Redirection : Type 0 where
  moved_to ask_at : Bytes → Redirection
  no_redirection : Redirection

abbrev pub to_redirection : (Bytes → Redirection) → Option Bytes → Redirection
to_redirection how none = no_redirection
to_redirection how (some addr) = how addr

abbrev pub redirection_of : ErrorKind → Bytes → Redirection
redirection_of kind_moved msg = to_redirection moved_to (parse_redirection_msg msg)
redirection_of kind_ask msg = to_redirection ask_at (parse_redirection_msg msg)
redirection_of kind_none msg = no_redirection
redirection_of kind_other msg = no_redirection

unfoldable pub redirection : Scanned → PendingReq → Redirection
unfolding parse_redirection_msg
redirection s r =
    if ltb r.depth max_mux_redirects then redirection_of s.kind s.err_msg else no_redirection

-- The request as it is sent on.
abbrev pub deeper : PendingReq → PendingReq
deeper r = record {
  client = r.client;
  slot_idx = r.slot_idx;
  depth = r.depth + 1;
  req = r.req;
  skip_reply = false;
  is_ask_sentinel = false;
  fan_in = r.fan_in;
  fan_in_idx = r.fan_in_idx;
}

-- A reply that goes to its client.
unfoldable pub deliver : Env → PendingReq → Bytes → List Effect
deliver env r raw =
    if env.is_client r.client
    then if r.fan_in
      then respond_part r.client r.slot_idx r.fan_in_idx raw ∷ []
      else respond r.client r.slot_idx raw ∷ []
    else []

abbrev pub redirect : Env → Mux → PendingReq → Bytes → Redirection → Mux × List Effect
redirect env m r raw (moved_to addr) =
    let (m', effects) = send env m addr (deeper r) in (m', refresh ∷ effects)
redirect env m r raw (ask_at addr) = send_ask env m addr (deeper r)
redirect env m r raw no_redirection = (m, deliver env r raw)

-- The rest of a round of the loop, for the request `r` that the reply belongs to.
unfoldable pub answer : Env → Mux → Scanned → Bytes → PendingReq → Mux × List Effect
unfolding redirection deliver
answer env m s raw r = if r.skip_reply then (m, []) else redirect env m r raw (redirection s r)

abbrev pub answer_next :
    Env → Mux → Bytes → Scanned → Bytes → MuxConn × Option PendingReq → Mux × List Effect
answer_next env m addr s raw (bc, none) = (m, [])
answer_next env m addr s raw (bc, some r) = answer env (with_conn m addr (some bc)) s raw r

-- One reply, on the connection to `addr`; `bc` is found before the loop, and no call in it takes it
-- out of `conns`.
abbrev pub reply_at : Env → Mux → Bytes → Scanned → Bytes → Option MuxConn → Mux × List Effect
reply_at env m addr s raw none = (m, [])
reply_at env m addr s raw (some bc) = answer_next env m addr s raw (next_pending bc)

-- A round of the loop, at a `buf` that is not empty; `next` is what follows.
abbrev pub after_scan :
    (Mux → Bytes → Outcome (Mux × List Effect × Bytes))
    → Env
    → Mux
    → Bytes
    → Bytes
    → Outcome Scanned
    → Outcome (Mux × List Effect × Bytes)
after_scan next env m addr buf (ok s) = do
  let (m', effects) = reply_at env m addr s (take s.end buf) (m.conns addr)
  (m'', more, left) ← next m' (drop s.end buf)
  ok (m'', effects ++ more, left)
after_scan next env m addr buf incomplete = ok (m, [], buf)
after_scan next env m addr buf invalid = invalid
after_scan next env m addr buf panicked = panicked
after_scan next env m addr buf stuck = stuck

-- The loop: the mux, the effects, and what is left of `buf`. The fuel is the length of `buf`.
unfoldable pub replies : Env → ℕ → Mux → Bytes → Bytes → Outcome (Mux × List Effect × Bytes)
unfolding answer next_pending
replies env f m addr [] = ok (m, [], [])
replies env zero m addr (b ∷ buf) = stuck
replies env (suc f) m addr (b ∷ buf) =
    after_scan (λ m' left. replies env f m' addr left) env m addr (b ∷ buf) (scan_value (b ∷ buf))

-- What `onTraffic` returns: `gnet.Close`, with nothing done, for a connection that is not in
-- `conns`; else the new state.
abbrev pub traffic_at :
    Env → Mux → Bytes → Bytes → Option MuxConn → Outcome (Option (Mux × List Effect × Bytes))
traffic_at env m addr buf none = ok none
traffic_at env m addr [] (some bc) = ok (some (m, [], []))
traffic_at env m addr (b ∷ buf) (some bc) = do
  (m', effects, left) ← replies env (length (b ∷ buf)) m addr (b ∷ buf)
  ok (some (flush_backend_writes m', effects ++ flushed_clients ∷ [], left))

unfoldable pub on_traffic : Env → Mux → Bytes → Bytes → Outcome (Option (Mux × List Effect × Bytes))
unfolding replies
on_traffic env m addr buf = traffic_at env m addr buf (m.conns addr)

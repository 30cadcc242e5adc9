-- ===== src/Engine/Handler/Traffic/Pipelined.antt =====
-- Requests that a client has sent one behind the other, before it reads an answer.
use pluster.Prelude.{
  ℕ, zero, suc, ◌≤◌, ◌<◌, ◌≡◌, refl, ◌∙◌, ap, true, false, List, [], ◌∷◌, ◌++◌, All, arith, Bytes,
  length, drop, drop-length-append, if◌then◌else◌,
}
use pluster.Proto.Outcome.{Outcome, ok, incomplete, invalid, panicked, stuck, ◌>>=◌}
use pluster.Proto.Int64.{half_word}
use pluster.Proto.Line.{length-drop}
use pluster.Proto.Encode.{encode_command_bytes}
use pluster.Proto.Request.{Request, upper, parse_request}
use pluster.Proto.Request.Total.{parse_request_bounds}
use pluster.Proto.Request.RoundTrip.{parse_request-encode}
use pluster.Engine.Handler.{Server, Ctx}
use pluster.Engine.Handler.Dispatch.{dispatch_client_request}
use pluster.Engine.Handler.Traffic.{
  Read, after_dispatch, after_parse, requests, flush, count_commands, on_client_traffic,
}

-- A command as its client has it: its name, and what stands behind.
abbrev pub Command : Type 0
Command = Bytes × List Bytes

abbrev pub encoded : Command → Bytes
encoded (name, args) = encode_command_bytes (name ∷ args)

abbrev pub pipelined : List Command → Bytes → Bytes
pipelined [] tail = tail
pipelined (cmd ∷ cmds) tail = encoded cmd ++ pipelined cmds tail

abbrev pub IsSendable : Command → Type 0
IsSendable cmd = length (encoded cmd) < half_word

-- The request that a command arrives as.
abbrev pub arrives : Command → Request
arrives (name, args) = record {
  args = upper name ∷ args;
  raw = encode_command_bytes (upper name ∷ args);
  cmd = upper name;
}

-- One request after another is dispatched, up to the first that closes the connection.
abbrev pub served : Server → List Command → Bytes → Ctx → Outcome Read
served srv [] tail c = ok (record { ctx = c; left = tail; closes = false })
served srv (cmd ∷ cmds) tail c = do
  a ← dispatch_client_request srv (arrives cmd) c
  let rest = served srv cmds tail a.ctx
  if a.closes then ok (record { ctx = a.ctx; left = pipelined cmds tail; closes = true }) else rest

bind_cong :
    {A B : Type 0} (o : Outcome A) (f g : A → Outcome B)
    → ((x : A) → f x ≡ g x)
    → (o >>= f) ≡ (o >>= g)
bind_cong (ok x) f g h = h x
bind_cong incomplete f g h = refl
bind_cong invalid f g h = refl
bind_cong panicked f g h = refl
bind_cong stuck f g h = refl

requests-end :
    (srv : Server) (f : ℕ) (tail : Bytes) (c : Ctx)
    → length tail ≤ f
    → parse_request tail ≡ incomplete
    → requests srv f tail c ≡ ok (record { ctx = c; left = tail; closes = false })
unfolding requests
requests-end srv f [] c h p = refl
requests-end srv zero (b ∷ tail) c h p = absurd (omega arith)
requests-end srv (suc f) (b ∷ tail) c h p = ap (after_parse srv (requests srv f) (b ∷ tail) c) p

requests-next :
    (srv : Server) (f : ℕ) (buf : Bytes) (req : Request) (e : ℕ) (c : Ctx)
    (next : Bytes → Ctx → Outcome Read)
    → length buf ≤ f
    → parse_request buf ≡ ok (req, e)
    → ((g : ℕ) (c' : Ctx)
        → length (drop e buf) ≤ g
        → requests srv g (drop e buf) c' ≡ next (drop e buf) c')
    → requests srv f buf c
      ≡ (dispatch_client_request srv req c >>= after_dispatch next (drop e buf))
unfolding requests
requests-next srv f [] req e c next h p q = absurd (omega (arith, parse_request_bounds [] req e p))
requests-next srv zero (b ∷ buf) req e c next h p q = absurd (omega arith)
requests-next srv (suc f) (b ∷ buf) req e c next h p q =
    let (lo, hi) = parse_request_bounds (b ∷ buf) req e p in
    let left = drop e (b ∷ buf) in
    ap (after_parse srv (requests srv f) (b ∷ buf) c) p
    ∙ bind_cong (dispatch_client_request srv req c) (after_dispatch (requests srv f) left)
        (after_dispatch next left)
        (λ a.
          ap
            (λ (rest : Outcome Read).
              if a.closes then ok (record { ctx = a.ctx; left = left; closes = true }) else rest)
            (q f a.ctx (omega (arith, length-drop e (b ∷ buf) hi))))

requests-pipelined :
    (srv : Server) (cmds : List Command) (tail : Bytes) (f : ℕ) (c : Ctx)
    → All IsSendable cmds
    → parse_request tail ≡ incomplete
    → length (pipelined cmds tail) ≤ f
    → requests srv f (pipelined cmds tail) c ≡ served srv cmds tail c
requests-pipelined srv [] tail f c s p h = requests-end srv f tail c h p
requests-pipelined srv ((name, args) ∷ cmds) tail f c (s, ss) p h =
    let more = pipelined cmds tail in
    let behind : drop (length (encoded (name, args))) (encoded (name, args) ++ more) ≡ more =
      drop-length-append (encoded (name, args)) more in
    requests-next srv f (encoded (name, args) ++ more) (arrives (name, args))
      (length (encoded (name, args))) c (λ left c'. served srv cmds tail c') h
      (parse_request-encode name args more s)
      (λ g c'. rw behind (requests-pipelined srv cmds tail g c' ss p))
    ∙ ap
        (λ left.
          dispatch_client_request srv (arrives (name, args)) c
          >>= after_dispatch (λ l c'. served srv cmds tail c') left)
        behind

-- Whatever commands a client has sent one behind the other, if each is shorter than 2^63 bytes, with
-- the beginning of another behind them: they are dispatched in that order, each in the state that
-- those before it have left, up to the first that closes the connection. What has not been
-- dispatched is left in the buffer, the writes to the nodes are flushed, and the count of commands
-- joins that of the process.
pub on_client_traffic-pipelined :
    (srv : Server) (cmds : List Command) (tail : Bytes) (c : Ctx)
    → All IsSendable cmds
    → parse_request tail ≡ incomplete
    → on_client_traffic srv (pipelined cmds tail) c
      ≡ (do r ← served srv cmds tail c; ok (record r { ctx = count_commands (flush r.ctx) }))
unfolding on_client_traffic
on_client_traffic-pipelined srv cmds tail c s p =
    ap (λ (o : Outcome Read). o >>= (λ r. ok (record r { ctx = count_commands (flush r.ctx) })))
      (requests-pipelined srv cmds tail (length (pipelined cmds tail)) c s p (omega arith))

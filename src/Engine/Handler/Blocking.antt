-- ===== src/Engine/Handler/Blocking.antt =====
-- Blocking commands, of pkg/engine/handler_blocking.go, up to the connection on which they wait.
pub mod Keys
use pluster.Prelude.{
  ℕ, suc, ◌+◌, ◌-◌, ◌/◌, ◌%◌, ◌||◌, not, Bool, true, false, Option, none, some, List, [], ◌∷◌, ◌++◌,
  ltb, ◌==◌, if◌then◌else◌, Bytes, bytes_eq, codes, length, take, drop, get_elem?,
}
use pluster.Proto.Outcome.{Outcome, ok, panicked, ◌>>=◌}
use pluster.Proto.Int64.{add64, lt64, is_negative, format_int}
use pluster.Proto.Slot.{hash_slot}
use pluster.Proto.Encode.{encode_error, encode_command_bytes}
use pluster.Proto.Request.{Request, upper}
use pluster.Cluster.{get_node_for_slot}
use pluster.Router.Redirect.{atoi}
use pluster.Engine.Responses.{alloc_response_slot, fill_response_slot_in_loop}
use pluster.Engine.Split.Route.{args_behind, wrong_number, no_node_for_slot}
use pluster.Engine.Blocking.{reuse_from}
use pluster.Engine.Multi.{Session, state_normal, state_blocking}
use pluster.Engine.Multi.Dispatch.{all_in_slot}
use pluster.Engine.Handler.{
  Server, Ctx, BlockingConn, after_command, DialStart, dialling, unresolved, unregistered, reply,
  reply_error,
}

-- `extractXREADKeys`: the first half of what stands behind STREAMS.
unfoldable pub behind_streams : List Bytes → List Bytes
unfolding upper bytes_eq
behind_streams [] = []
behind_streams (a ∷ args) =
    let rest = behind_streams args in if bytes_eq (upper a) (codes "STREAMS") then args else rest

unfoldable pub extract_xread_keys : List Bytes → List Bytes
unfolding behind_streams
extract_xread_keys args =
    let remaining = behind_streams args in
    if length remaining % 2 == 0 then take (length remaining / 2) remaining else []

-- BLMPOP and BZMPOP, at `numKeys`: `req.Args[start:end]`, which panics where `end` has wrapped.
abbrev pub counted_keys : List Bytes → Option ℕ → Outcome (List Bytes)
counted_keys args none = ok []
counted_keys args (some n) =
    if not (lt64 0 n)
    then ok []
    else if not (lt64 (add64 3 n) (suc (length args)))
    then ok []
    else if is_negative (add64 3 n)
    then panicked
    else ok (take n (drop 2 args))

abbrev pub second_or_empty : List Bytes → Bytes
second_or_empty (a ∷ b ∷ args) = b
second_or_empty _ = []

abbrev pub is_last_timeout : Bytes → Bool
is_last_timeout cmd =
    bytes_eq cmd (codes "BLPOP")
    || bytes_eq cmd (codes "BRPOP")
    || bytes_eq cmd (codes "BZPOPMIN")
    || bytes_eq cmd (codes "BZPOPMAX")

-- `extractBlockingKeys`.
unfoldable pub extract_blocking_keys : Request → Outcome (List Bytes)
unfolding bytes_eq atoi extract_xread_keys
extract_blocking_keys req =
    let args = args_behind req.args in
    if is_last_timeout req.cmd
    then (if ltb (length args) 2 then ok [] else ok (take (length args - 1) args))
    else if bytes_eq req.cmd (codes "BLMOVE")
    then (if ltb (length args) 5 then ok [] else ok (take 2 args))
    else if bytes_eq req.cmd (codes "BLMPOP") || bytes_eq req.cmd (codes "BZMPOP")
    then (if ltb (length args) 4 then ok [] else counted_keys args (atoi (second_or_empty args)))
    else if bytes_eq req.cmd (codes "XREAD") || bytes_eq req.cmd (codes "XREADGROUP")
    then ok (extract_xread_keys args)
    else ok []

-- `fillResponseSlotInLoop` for the slot of the blocking command, and `state = stateNormal`.
unfoldable pub end_blocking : Bytes → Ctx → Ctx
unfolding fill_response_slot_in_loop
end_blocking b c = record c {
  session = record c.session {
    client = fill_response_slot_in_loop c.session.client c.blocking_slot_idx b;
    state = state_normal;
  };
}

-- A connection that has nothing to wait for but the command.
abbrev pub send_on : ℕ → Bytes → Request → BlockingConn
send_on number addr req = record {
  number = number;
  addr = addr;
  pending = after_command req ∷ [];
  sent = encode_command_bytes req.args ∷ [];
}

-- `dialBlockingBackend` where the pool has no connection.
abbrev pub dial_new : Bytes → Request → Ctx → DialStart → Ctx
dial_new addr req c dialling = record c { dials = c.dials ++ (addr, req) ∷ [] }
dial_new addr req c (unresolved e) =
    end_blocking (encode_error (((codes "ERR failed to resolve " ++ addr) ++ codes ": ") ++ e)) c
dial_new addr req c (unregistered e) =
    end_blocking
      (encode_error (((codes "ERR failed to register backend " ++ addr) ++ codes ": ") ++ e)) c

-- `dialBlockingBackend` and `reuseBlockingConn`, which call each other as long as the pool has closed
-- connections, at the idle connections to the address.
unfoldable pub dial_blocking_from : Server → Bytes → Request → List ℕ → Ctx → Ctx
unfolding end_blocking encode_command_bytes
dial_blocking_from srv addr req [] c = dial_new addr req c (srv.dial addr)
dial_blocking_from srv addr req (n ∷ ns) c =
    let c' = record c { pool = (reuse_from c.pool addr (n ∷ ns)).0 } in
    let rest = dial_blocking_from srv addr req ns c' in
    if srv.is_closed n then rest else record c' { blocking_backend = some (send_on n addr req) }

unfoldable pub dial_blocking_backend : Server → Bytes → Request → Ctx → Ctx
unfolding dial_blocking_from
dial_blocking_backend srv addr req c = dial_blocking_from srv addr req (c.pool.idle addr) c

-- `dispatchBlockingCommand`, from the keys and the node on.
abbrev pub start_blocking : Server → Request → Bytes → Ctx → Ctx
start_blocking srv req addr c =
    let (client, i) = alloc_response_slot c.session.client in
    dial_blocking_backend srv addr req (record c {
      session = record c.session { client = client; state = state_blocking };
      blocking_slot_idx = i;
    })

abbrev pub block_at : Server → Request → ℕ → Option Bytes → Ctx → Ctx
block_at srv req slot none c = reply (no_node_for_slot slot) c
block_at srv req slot (some addr) c = start_blocking srv req addr c

unfoldable pub block_on : Server → Request → List Bytes → Ctx → Ctx
unfolding wrong_number all_in_slot hash_slot get_node_for_slot alloc_response_slot
    dial_blocking_backend
block_on srv req [] c = reply (wrong_number req.cmd) c
block_on srv req (k ∷ ks) c =
    if all_in_slot (hash_slot k) ks
    then block_at srv req (hash_slot k) (get_node_for_slot srv.topo (hash_slot k)) c
    else reply_error (codes "CROSSSLOT Keys in request don't hash to the same slot") c

-- `dispatchBlockingCommand`.
unfoldable pub dispatch_blocking_command : Server → Request → Ctx → Outcome Ctx
unfolding extract_blocking_keys block_on
dispatch_blocking_command srv req c = do
  keys ← extract_blocking_keys req
  ok (block_on srv req keys c)

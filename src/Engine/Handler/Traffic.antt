-- ===== src/Engine/Handler/Traffic.antt =====
-- `onClientTraffic` of pkg/engine/handler.go: all whole requests that a client has sent are
-- dispatched. The fuel is the length of what has been received.
pub mod Total
pub mod Pipelined
use pluster.Prelude.{
  ℕ, zero, suc, ◌+◌, Bool, true, false, List, [], ◌∷◌, ◌++◌, if◌then◌else◌, Bytes, codes, length,
  drop,
}
use pluster.Proto.Outcome.{Outcome, ok, incomplete, invalid, panicked, stuck, ◌>>=◌}
use pluster.Proto.Encode.{encode_error}
use pluster.Proto.Request.{Request, parse_request}
use pluster.Engine.Mux.{flush_backend_writes}
use pluster.Engine.Multi.{write_past}
use pluster.Engine.Handler.{Server, Ctx, Action}
use pluster.Engine.Handler.Dispatch.{dispatch_client_request}

-- The state, what is left in the buffer, and whether the connection is closed.
pub record Read : Type 0 where
  pub ctx : Ctx
  pub left : Bytes
  pub closes : Bool

abbrev pub protocol_error : Bytes
protocol_error = encode_error (codes "ERR Protocol error: invalid RESP protocol")

-- What follows `dispatchClientRequest`, with the rest of the loop.
abbrev pub after_dispatch : (Bytes → Ctx → Outcome Read) → Bytes → Action → Outcome Read
after_dispatch next left a =
    let rest = next left a.ctx in
    if a.closes then ok (record { ctx = a.ctx; left = left; closes = true }) else rest

-- What follows `ParseRequest`.
abbrev pub after_parse :
    Server → (Bytes → Ctx → Outcome Read) → Bytes → Ctx → Outcome (Request × ℕ) → Outcome Read
after_parse srv next buf c (ok (req, consumed)) = do
  a ← dispatch_client_request srv req c
  after_dispatch next (drop consumed buf) a
after_parse srv next buf c incomplete = ok (record { ctx = c; left = buf; closes = false })
after_parse srv next buf c invalid = ok (record {
  ctx = record c { session = write_past protocol_error c.session };
  left = buf;
  closes = true;
})
after_parse srv next buf c panicked = panicked
after_parse srv next buf c stuck = stuck

unfoldable pub requests : Server → ℕ → Bytes → Ctx → Outcome Read
unfolding parse_request dispatch_client_request write_past
requests srv f [] c = ok (record { ctx = c; left = []; closes = false })
requests srv zero (b ∷ buf) c = stuck
requests srv (suc f) (b ∷ buf) c =
    after_parse srv (requests srv f) (b ∷ buf) c (parse_request (b ∷ buf))

-- `mux.flushBackendWrites`, and the count of commands.
abbrev pub flush : Ctx → Ctx
flush c = record c { session = record c.session { mux = flush_backend_writes c.session.mux } }

abbrev pub count_commands : Ctx → Ctx
count_commands c = record c {
  total_commands = c.total_commands + c.local_cmd_count;
  local_cmd_count = 0;
}

-- `onClientTraffic`.
unfoldable pub on_client_traffic : Server → Bytes → Ctx → Outcome Read
unfolding requests flush_backend_writes
on_client_traffic srv buf c = do
  r ← requests srv (length buf) buf c
  ok (record r { ctx = count_commands (flush r.ctx) })

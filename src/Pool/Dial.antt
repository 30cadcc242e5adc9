-- ===== src/Pool/Dial.antt =====
-- How a `Pool` of pkg/pool/pool.go and the loop of pkg/pool/pipeline.go open a connection, and which
-- connection of a `PipelinedPool` a request goes to. What a node answers to the commands that have been sent so
-- far is a parameter.
pub mod Opened
use pluster.Prelude.{
  ℕ, zero, suc, ◌+◌, ◌%◌, Bool, true, false, Option, none, some, List, [], ◌∷◌, ◌++◌, ◌==◌,
  if◌then◌else◌, Bytes, codes,
}
use pluster.Proto.Outcome.{Outcome, ok, panicked}
use pluster.Proto.Int64.{is_negative, add64, neg64, lt64}
use pluster.Proto.Value.{Value, error}

-- What `ReadValue` gives behind the commands of a list, an error of Go or a value.
pub data Reply : Type 0 where
  read_failed : Bytes → Reply
  value : Value → Reply

abbrev pub Peer : Type 0
Peer = List (List Bytes) → Reply

-- What `dial` comes to: a connection with the commands that have been sent on it, or an error.
pub data Dialled : Type 0 where
  opened : List (List Bytes) → Dialled
  refused : Bytes → Dialled

-- Who opens a connection: a `Pool`, or the loop of a pipelined connection, whose errors say less.
pub data Opener : Type 0 where
  pooled pipelined : Opener

abbrev pub read_error : Opener → Bytes → Bytes → Bytes
read_error pooled failure e = e
read_error pipelined failure e = failure

abbrev pub error_reply : Opener → Bytes → Bytes → Bytes
error_reply pooled failure msg = (failure ++ codes ": ") ++ msg
error_reply pipelined failure msg = failure

-- One command and its reply, in `auth` and `sendReadonly`.
abbrev pub after_reply : Opener → Bytes → List (List Bytes) → Reply → Dialled
after_reply opener failure sent (read_failed e) = refused (read_error opener failure e)
after_reply opener failure sent (value (error msg)) = refused (error_reply opener failure msg)
after_reply opener failure sent (value v) = opened sent

abbrev pub ask : Opener → Peer → Bytes → List Bytes → Dialled → Dialled
ask opener node failure command (refused e) = refused e
ask opener node failure command (opened sent) =
    let sent' = sent ++ command ∷ [] in after_reply opener failure sent' (node sent')

-- `auth`.
abbrev pub login : Bytes → Bytes → List Bytes
login [] password = codes "AUTH" ∷ password ∷ []
login (u ∷ us) password = codes "AUTH" ∷ (u ∷ us) ∷ password ∷ []

abbrev pub auth : Opener → Peer → Bytes → Bytes → Dialled → Dialled
auth opener node username [] d = d
auth opener node username (p ∷ password) d =
    ask opener node (codes "auth failed") (login username (p ∷ password)) d

-- `sendReadonly`.
abbrev pub send_readonly : Opener → Peer → Bool → Dialled → Dialled
send_readonly opener node false d = d
send_readonly opener node true d =
    ask opener node (codes "READONLY failed") (codes "READONLY" ∷ []) d

-- `dial` of a `Pool` and `connect` of a pipelined connection; none is a node that cannot be reached,
-- with the error of the dialer.
abbrev pub unreached : Opener → Bytes → Bytes → Bytes
unreached pooled addr e = ((codes "dial " ++ addr) ++ codes ": ") ++ e
unreached pipelined addr e = e

unfoldable pub dial_as : Opener → Option Peer → Bytes → Bytes → Bytes → Bytes → Bool → Dialled
dial_as opener none e addr username password readonly = refused (unreached opener addr e)
dial_as opener (some node) e addr username password readonly =
    send_readonly opener node readonly (auth opener node username password (opened []))

abbrev pub dial : Option Peer → Bytes → Bytes → Bytes → Bytes → Bool → Dialled
dial = dial_as pooled

abbrev pub connect : Option Peer → Bytes → Bytes → Bytes → Bytes → Bool → Dialled
connect = dial_as pipelined

-- `PipelinedPool`: its size and `idx`, an int as a pattern of 64 bits.
pub record PipelinedPool : Type 0 where
  pub size : ℕ
  pub idx : ℕ

-- `NewPipelinedPoolOpts`.
abbrev pub default_pipelined_size : ℕ
default_pipelined_size = 4

unfoldable pub new_pipelined_pool : ℕ → PipelinedPool
new_pipelined_pool size = record {
  size = if lt64 0 size then size else default_pipelined_size;
  idx = 0;
}

-- `pp.idx % pp.size` and `pp.idx++` of `Do`: the connection. The remainder of a negative number is
-- not positive in Go, and a negative index panics.
abbrev pub remainder : ℕ → ℕ → Outcome ℕ
remainder idx zero = panicked
remainder idx (suc m) =
    if is_negative idx
    then (if neg64 idx % suc m == 0 then ok 0 else panicked)
    else ok (idx % suc m)

unfoldable pub pick : PipelinedPool → Outcome ℕ × PipelinedPool
pick p = (remainder p.idx p.size, record p { idx = add64 p.idx 1 })

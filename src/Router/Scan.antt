-- ===== src/Router/Scan.antt =====
-- `executeSCAN` of pkg/router/router.go: a scan of all masters, one after another. The cursor of the
-- client holds the number of the master in its sixteen low bits, and the cursor of that master.
pub mod Complete
pub mod Reply
use pluster.Prelude.{
  ℕ, zero, suc, ◌+◌, ◌*◌, ◌/◌, ◌%◌, Bool, true, false, Option, none, some, List, [], ◌∷◌, ltb, leb,
  ◌==◌, if◌then◌else◌, Bytes, codes, length, set, get_or,
}
use pluster.Proto.Int64.{word, decimal}
use pluster.Proto.Value.{
  Value, simple_string, error, bulk_string, array, Values, nil, cons, is_error,
}
use pluster.Engine.Mux.Traffic.{atoi_digits}
use pluster.Cluster.{all_masters}
use pluster.Router.{
  Result, done, failed, State, Action, ◌>>=◌, after, Backend, return, fail, err_value,
}
use pluster.Router.Node.{exec_on_node}

-- `strconv.ParseUint(s, 10, 64)`.
abbrev pub below_word : Option ℕ → Option ℕ
below_word none = none
below_word (some n) = if ltb n word then some n else none

unfoldable pub parse_uint : Bytes → Option ℕ
unfolding atoi_digits
parse_uint [] = none
parse_uint (c ∷ cs) = below_word (atoi_digits 0 (c ∷ cs))

-- `strconv.FormatUint(n, 10)`.
unfoldable pub format_uint : ℕ → Bytes
unfolding decimal
format_uint n = decimal 20 n

-- `1 << scanNodeIndexBits`.
abbrev pub scan_node_indexes : ℕ
scan_node_indexes = 65536

-- `nodeIdx` and `realCursor`, for a cursor of the client and a number of masters.
unfoldable pub scan_target : ℕ → ℕ → ℕ × ℕ
scan_target masters cursor =
    if leb masters (cursor % scan_node_indexes)
    then (0, 0)
    else (cursor % scan_node_indexes, cursor / scan_node_indexes)

-- `nextClientCursor`; the shift leaves the low bits 0, so that `|` adds.
unfoldable pub next_cursor : ℕ → ℕ → ℕ → ℕ
next_cursor masters node_idx returned =
    if returned == 0
    then (if ltb (node_idx + 1) masters then node_idx + 1 else 0)
    else returned * scan_node_indexes % word + node_idx

-- `Str` of a value.
unfoldable pub str_of : Value → Bytes
str_of (simple_string str) = str
str_of (error str) = str
str_of (bulk_string str) = str
str_of _ = []

-- The reply with the cursor of the client in place of that of the master.
abbrev pub with_cursor : Value → Option ℕ → Value → ℕ → ℕ → Value
with_cursor v none items masters node_idx = v
with_cursor v (some returned) items masters node_idx =
    array
      (cons (bulk_string (format_uint (next_cursor masters node_idx returned))) (cons items nil))

unfoldable pub scan_reply : ℕ → ℕ → Value → Value
unfolding next_cursor format_uint parse_uint str_of
scan_reply masters node_idx (array (cons c (cons items more))) =
    with_cursor (array (cons c (cons items more))) (parse_uint (str_of c)) items masters node_idx
scan_reply masters node_idx v = v

abbrev pub wrong_number_scan : Bytes
wrong_number_scan = codes "ERR wrong number of arguments for 'scan' command"

abbrev pub not_an_integer : Bytes
not_an_integer = codes "ERR value is not an integer or out of range"

abbrev pub no_nodes : Bytes
no_nodes = codes "no cluster nodes available"

module _ {W : Type 0} (b : Backend W) where
  -- From the cursor of the client on.
  abbrev pub scan_from : List Bytes → List Bytes → Option ℕ → Action W Value
  scan_from args masters none = return (err_value not_an_integer)
  scan_from args masters (some cursor) =
      let (node_idx, real) = scan_target (length masters) cursor in
      (do
        v ← exec_on_node b (get_or masters node_idx []) (set args 1 (format_uint real)) false
        return (scan_reply (length masters) node_idx v))

  abbrev pub scan_masters : List Bytes → Bytes → List Bytes → Action W Value
  scan_masters args cursor [] = fail no_nodes
  scan_masters args cursor (m ∷ ms) = scan_from args (m ∷ ms) (parse_uint cursor)

  -- `executeSCAN`.
  unfoldable pub execute_scan : List Bytes → Action W Value
  unfolding scan_target format_uint parse_uint exec_on_node scan_reply all_masters
  execute_scan (name ∷ cursor ∷ args) =
      λ s. scan_masters (name ∷ cursor ∷ args) cursor (all_masters s.topo) s
  execute_scan _ = return (err_value wrong_number_scan)

-- ===== src/Router/Redirect.antt =====
-- `executeRedirect` of pkg/router/router.go: redirections of a cluster are followed.
pub mod Bound
pub mod Final
use pluster.Prelude.{
  ℕ, zero, suc, ◌+◌, ◌-◌, ◌*◌, ◌&&◌, not, Bool, true, false, Option, none, some, List, [], ◌∷◌,
  ◌++◌, ◌==◌, if◌then◌else◌, Bytes, codes, length,
}
use mathlib.Core.Option
use pluster.Proto.Int64.{neg64, format_int}
use pluster.Proto.Value.{Value, error, is_moved_error, is_ask_error}
use pluster.Proto.Command.Info.{CmdInfo, has_flag, flag_read, flag_write}
use pluster.Proto.Command.{get_cmd_info}
use pluster.Cluster.{Topology, node_addr_for_slot}
use pluster.Engine.Mux.Traffic.{cut_space, atoi_digits, atoi_ok}
use pluster.Router.{Result, done, failed, State, Action, ◌>>=◌, after, Backend, return, fail}
use pluster.Router.Node.{exec_on_node}

-- `strconv.Atoi`.
abbrev pub atoi_value : Bytes → Option ℕ
atoi_value [] = none
atoi_value (c ∷ cs) =
    if c == b'-'
    then Option.map neg64 (atoi_digits 0 cs)
    else if c == b'+'
    then atoi_digits 0 cs
    else atoi_digits 0 (c ∷ cs)

unfoldable pub atoi : Bytes → Option ℕ
unfolding atoi_ok atoi_digits
atoi b = if atoi_ok b then atoi_value b else none

-- `ParseRedirection`, on the text of an error: the slot and the address.
unfoldable pub parse_redirection : Bytes → Option (ℕ × Bytes)
unfolding cut_space atoi
parse_redirection str = elim (cut_space str) [
  | none ↦ none
  | some (word, rest) ↦ elim (cut_space rest) [
    | none ↦ none
    | some (slot, addr) ↦ Option.map (λ n. (n, addr)) (atoi slot)
  ]
]

abbrev pub max_redirects : ℕ
max_redirects = 16

-- Where `executeRedirect` goes next: to an address, or, where that is empty, to the node of a slot.
pub record Target : Type 0 where
  pub addr : Bytes
  pub slot : ℕ
  pub asking : Bool

-- Where a reply sends a command on.
pub data Next : Type 0 where
  moved asked : Target → Next
  answered : Next

abbrev pub moved_to : Option (ℕ × Bytes) → Next
moved_to none = answered
moved_to (some (slot, addr)) = moved (record { addr = addr; slot = slot; asking = false })

abbrev pub asked_at : Option (ℕ × Bytes) → Next
asked_at none = answered
asked_at (some (slot, addr)) = asked (record { addr = addr; slot = neg64 1; asking = true })

unfoldable pub next_of : Value → Next
unfolding is_moved_error is_ask_error parse_redirection
next_of (error str) =
    if is_moved_error (error str)
    then moved_to (parse_redirection str)
    else if is_ask_error (error str)
    then asked_at (parse_redirection str)
    else answered
next_of _ = answered

-- Whether a command only reads.
abbrev pub reads : Option CmdInfo → Bool
reads none = false
reads (some info) = has_flag info flag_read && not (has_flag info flag_write)

module _ {W : Type 0} (b : Backend W) where
  -- `nodeAddrForSlot`, on the router's topology.
  abbrev pub slot_addr : ℕ → Topology × Option Bytes → Action W Bytes
  slot_addr slot (t, none) =
      λ s. (record s { topo = t }, failed (codes "no node for slot " ++ format_int slot))
  slot_addr slot (t, some addr) = λ s. (record s { topo = t }, done addr)

  unfoldable pub find_addr : Bytes → Target → Action W Bytes
  unfolding node_addr_for_slot get_cmd_info
  find_addr cmd to = λ s.
      if length to.addr == 0
      then slot_addr to.slot
          (node_addr_for_slot s.read_mode s.topo to.slot (reads (get_cmd_info cmd))) s
      else (s, done to.addr)

  -- What `executeRedirect` does with a reply; `TriggerRefresh` is called for MOVED.
  abbrev pub follow : (Target → Action W Value) → Value → Next → Action W Value
  follow again v answered = return v
  follow again v (moved to) = λ s. again to (record s { refreshes = suc s.refreshes })
  follow again v (asked to) = again to

  -- `executeRedirect`, where `depth` may still go up `left` times before it exceeds `MaxRedirects`.
  unfoldable pub redirect_from : ℕ → Bytes → List Bytes → Target → Action W Value
  unfolding find_addr next_of exec_on_node
  redirect_from zero cmd args to = fail (codes "too many redirects")
  redirect_from (suc left) cmd args to = do
    addr ← find_addr cmd to
    v ← exec_on_node b addr args to.asking
    follow (redirect_from left cmd args) v (next_of v)

  -- `executeRedirect`, at a `depth`.
  unfoldable pub execute_redirect : Bytes → List Bytes → Target → ℕ → Action W Value
  unfolding redirect_from
  execute_redirect cmd args to depth = redirect_from (max_redirects + 1 - depth) cmd args to

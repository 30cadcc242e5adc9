-- ===== src/Router/Execute.antt =====
-- `Execute` of pkg/router/router.go: the ways of a command, and the commands that go to all masters.
use pluster.Prelude.{
  ◌||◌, false, Option, none, some, List, [], ◌∷◌, ◌++◌, map, ◌==◌, if◌then◌else◌, Bytes, bytes_eq,
  codes, length,
}
use pluster.Proto.Outcome.{Outcome, ok}
use pluster.Proto.Value.{Value, error, bulk_string, array, Values, nil, cons}
use pluster.Proto.Slot.{hash_slot}
use pluster.Proto.Request.{upper}
use pluster.Proto.Command.Info.{CmdInfo, has_flag, flag_not_allowed, flag_all_nodes, flag_multi_key}
use pluster.Proto.Command.{get_cmd_info, get_keys, first_key_of}
use pluster.Proto.Request.{Request}
use pluster.Cluster.{all_masters}
use pluster.Engine.Split.Route.{lower, args_behind}
use pluster.Router.{Result, done, failed, State, Action, Backend, return, fail, err_value}
use pluster.Router.Node.{exec_on_node}
use pluster.Router.Redirect.{execute_redirect}
use pluster.Router.Scan.{execute_scan, no_nodes}
use pluster.Router.Merge.{
  merge_integer_sum, merge_array_concat, merge_ok, merge_first_non_error, merge_config_get,
  merge_script_exists,
}
use pluster.Router.Keys.{
  Part, to_slot, arity_error, execute_mget, execute_mset, execute_del, fan_out_integer,
}
use pluster.Router.Script.{execute_on_any_node}

abbrev pub head_or : List Bytes → Bytes
head_or [] = []
head_or (a ∷ args) = a

-- The texts of the refusals.
abbrev pub unknown_command : Bytes → Bytes
unknown_command name =
    (codes "ERR unknown command '" ++ name) ++ codes "', with args beginning with: "

abbrev pub not_in_proxy : Bytes → Bytes
not_in_proxy name = (codes "ERR command '" ++ name) ++ codes "' is not supported in cluster proxy"

module _ {W : Type 0} (b : Backend W) (order : List Part → List Part) where
  -- `fanOutToMasters` with `execOnNode`: the goroutines run one after another.
  unfoldable pub run_on : List Bytes → List Bytes → State W → State W × List (Bytes × Result Value)
  unfolding exec_on_node
  run_on [] args s = (s, [])
  run_on (m ∷ ms) args s =
      let (s', r) = exec_on_node b m args false s in
      let (s'', rs) = run_on ms args s' in (s'', (m, r) ∷ rs)

  abbrev pub results : List (Bytes × Result Value) → List (Result Value)
  results = map (λ mr. mr.1)

  abbrev pub merge_masters :
      (List (Bytes × Result Value) → Result Value) → List Bytes → List Bytes → Action W Value
  merge_masters merge args [] = fail no_nodes
  merge_masters merge args (m ∷ ms) = λ s. let (s', rs) = run_on (m ∷ ms) args s in (s', merge rs)

  -- All masters of the topology, and a merge of their results.
  unfoldable pub on_all_masters :
      (List (Bytes × Result Value) → Result Value) → List Bytes → Action W Value
  unfolding run_on all_masters
  on_all_masters merge args = λ s. merge_masters merge args (all_masters s.topo) s

  -- The switch of `executeAllNodes`.
  unfoldable pub merge_for : Bytes → List (Result Value) → Result Value
  unfolding merge_integer_sum merge_array_concat merge_ok merge_first_non_error bytes_eq
  merge_for name rs =
      if bytes_eq name (codes "DBSIZE")
      then merge_integer_sum 0 rs
      else if bytes_eq name (codes "FLUSHDB") || bytes_eq name (codes "FLUSHALL")
      then merge_ok rs
      else if bytes_eq name (codes "SCRIPT")
      then merge_first_non_error rs
      else merge_array_concat nil rs

  -- `executeAllNodes`.
  unfoldable pub execute_all_nodes : List Bytes → Bytes → Action W Value
  unfolding on_all_masters merge_for
  execute_all_nodes args name = on_all_masters (λ rs. merge_for name (results rs)) args

  -- `executeScript` and `executeScriptExists`.
  unfoldable pub execute_script : List Bytes → Action W Value
  unfolding on_all_masters execute_all_nodes merge_script_exists execute_on_any_node upper bytes_eq
  execute_script (name ∷ word ∷ args) =
      let sub = upper word in
      let all = name ∷ word ∷ args in
      if bytes_eq sub (codes "LOAD") || bytes_eq sub (codes "FLUSH")
      then execute_all_nodes all (codes "SCRIPT")
      else if bytes_eq sub (codes "EXISTS")
      then on_all_masters (λ rs. merge_script_exists (length args) (results rs)) all
      else execute_on_any_node b all
  execute_script _ = return (err_value (arity_error (codes "script")))

  -- `executeConfig`.
  unfoldable pub execute_config : List Bytes → Action W Value
  unfolding on_all_masters merge_config_get merge_ok execute_on_any_node upper bytes_eq
  execute_config (name ∷ word ∷ args) =
      let sub = upper word in
      let all = name ∷ word ∷ args in
      if bytes_eq sub (codes "GET")
      then on_all_masters (λ rs. merge_config_get [] nil (results rs)) all
      else if bytes_eq sub (codes "SET") || bytes_eq sub (codes "RESETSTAT")
      then on_all_masters (λ rs. merge_ok (results rs)) all
      else execute_on_any_node b all
  execute_config _ = return (err_value (arity_error (codes "config")))

  -- `ExecuteBroadcast`: every address with the answer of its node.
  abbrev pub broadcast_reply : Result Value → Value
  broadcast_reply (done v) = v
  broadcast_reply (failed e) = error (codes "ERR " ++ e)

  abbrev pub broadcast_pairs : List (Bytes × Result Value) → Values
  broadcast_pairs [] = nil
  broadcast_pairs ((addr, r) ∷ rs) =
      cons (array (cons (bulk_string addr) (cons (broadcast_reply r) nil))) (broadcast_pairs rs)

  unfoldable pub execute_broadcast : List Bytes → Action W Value
  unfolding on_all_masters
  execute_broadcast (name ∷ word ∷ args) =
      on_all_masters (λ rs. done (array (broadcast_pairs rs))) (word ∷ args)
  execute_broadcast _ = return (err_value (arity_error (codes "broadcast")))

  -- The default of `executeMultiKey`; `GetKeys` gives no key where it gives no list.
  abbrev pub on_first_key : Bytes → List Bytes → Outcome (List Bytes) → Action W Value
  on_first_key cmd args (ok (k ∷ ks)) = execute_redirect b cmd args (to_slot (hash_slot k)) 0
  on_first_key cmd args _ = execute_on_any_node b args

  -- `executeMultiKey`.
  unfoldable pub execute_multi_key : Request → Action W Value
  unfolding execute_mget execute_mset execute_del fan_out_integer upper bytes_eq get_keys
      execute_redirect execute_on_any_node hash_slot
  execute_multi_key req =
      let name = upper (head_or req.args) in
      let keys = args_behind req.args in
      if bytes_eq name (codes "MGET")
      then execute_mget b order keys
      else if bytes_eq name (codes "MSET") || bytes_eq name (codes "MSETNX")
      then execute_mset b order name keys
      else if bytes_eq name (codes "DEL") || bytes_eq name (codes "UNLINK")
      then execute_del b order name keys
      else if bytes_eq name (codes "EXISTS") || bytes_eq name (codes "TOUCH")
      then fan_out_integer b order (head_or req.args) keys
      else on_first_key req.cmd req.args (get_keys req)

  -- The end of `Execute`: the node of the first key, or any node.
  abbrev pub on_key : Request → Option Bytes → Action W Value
  on_key req none = execute_on_any_node b req.args
  on_key req (some key) = execute_redirect b req.cmd req.args (to_slot (hash_slot key)) 0

  -- `Execute`, from the entry of the command on.
  unfoldable pub execute_known : Request → Bytes → CmdInfo → Action W Value
  unfolding execute_scan execute_script execute_config execute_broadcast execute_all_nodes
      execute_multi_key execute_on_any_node execute_redirect hash_slot bytes_eq has_flag lower
  execute_known req name info =
      if has_flag info flag_not_allowed
      then return (err_value (not_in_proxy (lower name)))
      else if bytes_eq name (codes "SCAN")
      then execute_scan b req.args
      else if bytes_eq name (codes "SCRIPT")
      then execute_script req.args
      else if bytes_eq name (codes "CONFIG")
      then execute_config req.args
      else if bytes_eq name (codes "BROADCAST")
      then execute_broadcast req.args
      else if has_flag info flag_all_nodes
      then execute_all_nodes req.args name
      else if has_flag info flag_multi_key
      then execute_multi_key req
      else on_key req (first_key_of info req.args)

  abbrev pub execute_named : Request → Bytes → Option CmdInfo → Action W Value
  execute_named req name none = return (err_value (unknown_command (lower name)))
  execute_named req name (some info) = execute_known req name info

  -- `Execute`.
  unfoldable pub execute : Request → Action W Value
  unfolding execute_known get_cmd_info upper lower
  execute req =
      let name = upper (head_or req.args) in
      if length req.args == 0
      then fail (codes "empty request")
      else execute_named req name (get_cmd_info name)

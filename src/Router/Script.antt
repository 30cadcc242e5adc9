-- ===== src/Router/Script.antt =====
-- `ExecScript` of pkg/router/router.go: EVAL and its kin, whose keys must be of one slot.
pub mod Laws
use pluster.Prelude.{
  ℕ, zero, suc, ◌+◌, ◌-◌, ◌%◌, ◌||◌, not, Bool, true, false, Option, none, some, List, [], ◌∷◌, ltb,
  leb, ◌==◌, if◌then◌else◌, Bytes, codes, length, get_or,
}
use pluster.Proto.Outcome.{Outcome, ok, incomplete, invalid, panicked, stuck, ◌>>=◌}
use pluster.Proto.Int64.{add64, lt64, is_negative}
use pluster.Proto.Value.{Value}
use pluster.Proto.Slot.{hash_slot}
use pluster.Proto.Command.{arg_at}
use pluster.Cluster.{all_masters}
use pluster.Router.{Result, done, failed, State, Action, Backend, return, fail, err_value}
use pluster.Router.Node.{exec_on_node}
use pluster.Router.Redirect.{Target, atoi, execute_redirect}
use pluster.Router.Scan.{no_nodes}
use pluster.Router.Keys.{to_slot}

-- What `ExecScript` decides before it contacts a node.
pub data ScriptPlan : Type 0 where
  refuse : Bytes → ScriptPlan
  any_node : ScriptPlan
  on_slot : ℕ → ScriptPlan

abbrev pub wrong_number_eval : Bytes
wrong_number_eval = codes "ERR wrong number of arguments for EVAL"

abbrev pub not_an_integer_eval : Bytes
not_an_integer_eval = codes "ERR value is not an integer or out of range"

abbrev pub crossslot_script : Bytes
crossslot_script = codes "CROSSSLOT Keys in script don't hash to the same slot"

-- `for i := 4; i < 3+numKeys; i++`, `left` rounds before the end.
unfoldable pub check_keys : List Bytes → ℕ → ℕ → ℕ → Outcome ScriptPlan
unfolding hash_slot
check_keys args slot i zero = ok (on_slot slot)
check_keys args slot i (suc left) = do
  k ← arg_at args i
  rest ← check_keys args slot (suc i) left
  ok (if hash_slot k == slot then rest else refuse crossslot_script)

-- From the number of keys on, an int that is not negative.
unfoldable pub plan_keys : List Bytes → ℕ → Outcome ScriptPlan
unfolding check_keys hash_slot
plan_keys args num_keys =
    if num_keys == 0
    then ok any_node
    else if lt64 (length args) (add64 3 num_keys)
    then ok (refuse wrong_number_eval)
    else (do first ← arg_at args 3; check_keys args (hash_slot first) 4 (num_keys - 1))

abbrev pub plan_number : List Bytes → Option ℕ → Outcome ScriptPlan
plan_number args none = ok (refuse not_an_integer_eval)
plan_number args (some n) =
    let plan = plan_keys args n in if is_negative n then ok (refuse not_an_integer_eval) else plan

unfoldable pub plan_script : List Bytes → Outcome ScriptPlan
unfolding plan_keys atoi
plan_script args =
    if ltb (length args) 3
    then ok (refuse wrong_number_eval)
    else (do n ← arg_at args 2; plan_number args (atoi n))

module _ {W : Type 0} (b : Backend W) where
  -- `executeOnAnyNode`: `rrCounter.Add(1) % uint64(len(masters))`.
  abbrev pub on_any : List Bytes → List Bytes → Action W Value
  on_any [] args = fail no_nodes
  on_any (m ∷ ms) args = λ s.
      let counter = add64 s.rr_counter 1 in
      exec_on_node b (get_or (m ∷ ms) (counter % length (m ∷ ms)) []) args false
        (record s { rr_counter = counter })

  unfoldable pub execute_on_any_node : List Bytes → Action W Value
  unfolding exec_on_node all_masters
  execute_on_any_node args = λ s. on_any (all_masters s.topo) args s

  abbrev pub run_plan : Bytes → List Bytes → ScriptPlan → Action W Value
  run_plan cmd args (refuse msg) = return (err_value msg)
  run_plan cmd args any_node = execute_on_any_node args
  run_plan cmd args (on_slot slot) = execute_redirect b cmd args (to_slot slot) 0

  -- `ExecScript`; an index out of range ends the goroutine that calls it.
  unfoldable pub exec_script : Bytes → List Bytes → Outcome (Action W Value)
  unfolding plan_script execute_redirect execute_on_any_node
  exec_script cmd args = do plan ← plan_script args; ok (run_plan cmd args plan)

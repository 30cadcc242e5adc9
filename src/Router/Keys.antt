-- ===== src/Router/Keys.antt =====
-- The commands on several keys of pkg/router/router.go: `executeMGET`, `executeMSET`, `executeDEL`,
-- `executeEXISTS`. Each part runs in a goroutine; here the parts run one after another, in the order
-- of a list, which stands for the order in which Go ranges over the map and the parts take the mutex.
use pluster.Prelude.{
  ℕ, zero, suc, ◌&&◌, ◌||◌, not, Bool, true, false, Option, none, some, List, [], ◌∷◌, ◌++◌, map,
  ltb, ◌==◌, if◌then◌else◌, Bytes, bytes_eq, codes, length, set,
}
use pluster.Proto.Value.{Value, error, integer, array, nil_pointer, Values, nil, cons}
use pluster.Proto.Slot.{hash_slot}
use pluster.Engine.Split.Route.{lower}
use pluster.Router.{Result, done, failed, State, Action, Backend, return, err_value}
use pluster.Router.Redirect.{Target, execute_redirect}
use pluster.Router.Merge.{values, ok_value, add_value}

-- A slot, with the keys of a command that it has, and for each its index among the keys and, for
-- MSET, its value.
pub record Entry : Type 0 where
  pub index : ℕ
  pub words : List Bytes

pub record Part : Type 0 where
  pub slot : ℕ
  pub entries : List Entry

-- `slotKeys[slot] = append(slotKeys[slot], …)`.
unfoldable pub add_entry : ℕ → Entry → List Part → List Part
add_entry slot e [] = record { slot = slot; entries = e ∷ [] } ∷ []
add_entry slot e (p ∷ ps) =
    let rest = add_entry slot e ps in
    if p.slot == slot then record p { entries = p.entries ++ e ∷ [] } ∷ ps else p ∷ rest

-- The loop over the keys.
unfoldable pub parts_of_keys : ℕ → List Bytes → List Part → List Part
unfolding add_entry hash_slot
parts_of_keys i [] ps = ps
parts_of_keys i (k ∷ ks) ps =
    parts_of_keys (suc i) ks (add_entry (hash_slot k) (record { index = i; words = k ∷ [] }) ps)

-- The loop over pairs of keys and values.
unfoldable pub parts_of_pairs : ℕ → List Bytes → List Part → List Part
unfolding add_entry hash_slot
parts_of_pairs i [] ps = ps
parts_of_pairs i (k ∷ []) ps = ps
parts_of_pairs i (k ∷ v ∷ args) ps =
    parts_of_pairs (suc i) args
      (add_entry (hash_slot k) (record { index = i; words = k ∷ v ∷ [] }) ps)

-- The arguments of a part.
abbrev pub words_of : List Entry → List Bytes
words_of [] = []
words_of (e ∷ es) = e.words ++ words_of es

abbrev pub to_slot : ℕ → Target
to_slot slot = record { addr = []; slot = slot; asking = false }

abbrev pub arity_error : Bytes → Bytes
arity_error name = (codes "ERR wrong number of arguments for '" ++ name) ++ codes "' command"

-- `if firstErr == nil { firstErr = err }`.
abbrev pub or_error : Option Bytes → Bytes → Option Bytes
or_error none e = some e
or_error (some first) e = some first

-- `results[idx] = v.Array[i]`, for each element there is.
abbrev pub place_values : List Entry → Values → List Value → List Value
place_values [] vs results = results
place_values (e ∷ es) nil results = results
place_values (e ∷ es) (cons v vs) results = place_values es vs (set results e.index v)

-- What a part of MGET leaves: the results, and `firstErr`.
abbrev pub mget_part :
    List Entry → Result Value → List Value × Option Bytes → List Value × Option Bytes
mget_part es (failed e) (results, first) = (results, or_error first e)
mget_part es (done (error msg)) (results, first) = (results, or_error first msg)
mget_part es (done (array vs)) (results, first) = (place_values es vs results, first)
mget_part es (done _) (results, first) = (results, first)

abbrev pub mget_answer : List Value × Option Bytes → Result Value
mget_answer (results, some e) = failed e
mget_answer (results, none) = done (array (values results))

abbrev pub nil_pointers : ℕ → List Value
nil_pointers zero = []
nil_pointers (suc n) = nil_pointer ∷ nil_pointers n

-- What the parts of DEL, UNLINK, EXISTS and TOUCH leave: `total` and `firstErr`.
abbrev pub integer_part : Result Value → ℕ × Option Bytes → ℕ × Option Bytes
integer_part (failed e) (total, first) = (total, or_error first e)
integer_part (done v) (total, first) = (add_value total v, first)

abbrev pub integer_answer : ℕ × Option Bytes → Result Value
integer_answer (total, some e) = failed e
integer_answer (total, none) = done (integer total)

-- The first error among the results of the parts of MSET, an error of Go or an error value.
abbrev pub first_failure : List (Result Value) → Option Bytes
first_failure [] = none
first_failure (failed e ∷ rs) = some e
first_failure (done (error msg) ∷ rs) = some msg
first_failure (done v ∷ rs) = first_failure rs

abbrev pub some_zero : List (Result Value) → Bool
some_zero [] = false
some_zero (done (integer n) ∷ rs) = n == 0 || some_zero rs
some_zero (r ∷ rs) = some_zero rs

abbrev pub mset_answer : Bool → Option Bytes → List (Result Value) → Result Value
mset_answer is_msetnx (some e) rs = failed e
mset_answer true none rs = done (integer (if some_zero rs then 0 else 1))
mset_answer false none rs = done ok_value

module _ {W : Type 0} (b : Backend W) where
  -- The parts, one after another: each becomes a command with the given name.
  unfoldable pub run_parts : Bytes → List Part → State W → State W × List (Part × Result Value)
  unfolding execute_redirect
  run_parts name [] s = (s, [])
  run_parts name (p ∷ ps) s =
      let (s', r) = execute_redirect b [] (name ∷ words_of p.entries) (to_slot p.slot) 0 s in
      let (s'', rs) = run_parts name ps s' in (s'', (p, r) ∷ rs)

  abbrev pub mget_results :
      List (Part × Result Value) → List Value × Option Bytes → List Value × Option Bytes
  mget_results [] acc = acc
  mget_results ((p, r) ∷ rs) acc = mget_results rs (mget_part p.entries r acc)

  -- `executeMGET`, on the keys; `order` is that of the parts.
  unfoldable pub execute_mget : (List Part → List Part) → List Bytes → Action W Value
  unfolding run_parts parts_of_keys
  execute_mget order [] = return (err_value (arity_error (codes "mget")))
  execute_mget order (k ∷ ks) = λ s.
      let (s', rs) = run_parts (codes "MGET") (order (parts_of_keys 0 (k ∷ ks) [])) s in
      (s', mget_answer (mget_results rs (nil_pointers (length (k ∷ ks)), none)))

  abbrev pub integer_results : List (Part × Result Value) → ℕ × Option Bytes → ℕ × Option Bytes
  integer_results [] acc = acc
  integer_results ((p, r) ∷ rs) acc = integer_results rs (integer_part r acc)

  -- `fanOutInteger`.
  unfoldable pub fan_out_integer : (List Part → List Part) → Bytes → List Bytes → Action W Value
  unfolding run_parts parts_of_keys
  fan_out_integer order name keys = λ s.
      let (s', rs) = run_parts name (order (parts_of_keys 0 keys [])) s in
      (s', integer_answer (integer_results rs (0, none)))

  -- `executeDEL`, for a name in capitals.
  unfoldable pub execute_del : (List Part → List Part) → Bytes → List Bytes → Action W Value
  unfolding fan_out_integer lower
  execute_del order name [] = return (err_value (arity_error (lower name)))
  execute_del order name (k ∷ ks) = fan_out_integer order name (k ∷ ks)

  -- `(len(req.Args)-1)%2 != 0`, and too few arguments.
  abbrev pub pairs_whole : List Bytes → Bool
  pairs_whole [] = true
  pairs_whole (k ∷ []) = false
  pairs_whole (k ∷ v ∷ args) = pairs_whole args

  abbrev pub results_of : List (Part × Result Value) → List (Result Value)
  results_of = map (λ pr. pr.1)

  abbrev pub crossslot_msetnx : Bytes
  crossslot_msetnx =
      codes
        "CROSSSLOT MSETNX requires all keys to be in the same slot (atomicity cannot be guaranteed across slots)"

  -- `executeMSET`, on the arguments behind the name.
  unfoldable pub execute_mset : (List Part → List Part) → Bytes → List Bytes → Action W Value
  unfolding run_parts parts_of_pairs lower bytes_eq
  execute_mset order name args =
      let ps = parts_of_pairs 0 args [] in
      let is_msetnx = bytes_eq name (codes "MSETNX") in
      if ltb (length args) 2 || not (pairs_whole args)
      then return (err_value (arity_error (lower name)))
      else if is_msetnx && ltb 1 (length ps)
      then return (err_value crossslot_msetnx)
      else (λ s.
          let (s', rs) = run_parts name (order ps) s in
          (s', mset_answer is_msetnx (first_failure (results_of rs)) (results_of rs)))

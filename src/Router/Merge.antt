-- ===== src/Router/Merge.antt =====
-- The merges of pkg/router/router.go: one answer from the answers of all masters.
pub mod Laws
use pluster.Prelude.{
  ℕ, zero, suc, Bool, true, false, ◌&&◌, ◌||◌, not, Option, none, some, List, [], ◌∷◌, ◌++◌, ◌==◌,
  if◌then◌else◌, Bytes, bytes_eq, codes,
}
use pluster.Proto.Int64.{add64}
use pluster.Proto.Value.{
  Value, simple_string, error, integer, bulk_string, array, nil_array, nil_pointer, Values, nil,
  cons, is_error,
}
use pluster.Router.{Result, done, failed}
use pluster.Router.Scan.{str_of}

-- A list of values as `[]*Value`, and `append` of two of these.
abbrev pub values : List Value → Values
values [] = nil
values (v ∷ vs) = cons v (values vs)

abbrev pub append_all : Values → Values → Values
append_all nil ws = ws
append_all (cons v vs) ws = cons v (append_all vs ws)

abbrev pub ok_value : Value
ok_value = simple_string (codes "OK")

-- `mergeIntegerSum`.
abbrev pub add_value : ℕ → Value → ℕ
add_value total (integer n) = add64 total n
add_value total _ = total

unfoldable pub merge_integer_sum : ℕ → List (Result Value) → Result Value
merge_integer_sum total [] = done (integer total)
merge_integer_sum total (failed e ∷ rs) = failed e
merge_integer_sum total (done v ∷ rs) = merge_integer_sum (add_value total v) rs

-- `mergeArrayConcat`.
abbrev pub elements : Value → Values
elements (array vs) = vs
elements _ = nil

unfoldable pub merge_array_concat : Values → List (Result Value) → Result Value
merge_array_concat all [] = done (array all)
merge_array_concat all (failed e ∷ rs) = failed e
merge_array_concat all (done v ∷ rs) = merge_array_concat (append_all all (elements v)) rs

-- `mergeOK`.
unfoldable pub merge_ok : List (Result Value) → Result Value
unfolding is_error
merge_ok [] = done ok_value
merge_ok (failed e ∷ rs) = failed e
merge_ok (done v ∷ rs) = let rest = merge_ok rs in if is_error v then done v else rest

-- `mergeFirstNonError`: the loop, and what follows it.
abbrev pub is_answer : Value → Bool
is_answer nil_pointer = false
is_answer v = not (is_error v)

abbrev pub first_of : Option Bytes → Bytes → Option Bytes
first_of none e = some e
first_of (some first) e = some first

abbrev pub or_first_result : Option Bytes → List (Result Value) → Result Value
or_first_result (some e) results = failed e
or_first_result none (done nil_pointer ∷ rs) = done ok_value
or_first_result none (done v ∷ rs) = done v
or_first_result none _ = done ok_value

abbrev pub first_non_error : List (Result Value) → Option Bytes → List (Result Value) → Result Value
first_non_error all first [] = or_first_result first all
first_non_error all first (failed e ∷ rs) = first_non_error all (first_of first e) rs
first_non_error all first (done v ∷ rs) =
    let rest = first_non_error all first rs in if is_answer v then done v else rest

unfoldable pub merge_first_non_error : List (Result Value) → Result Value
unfolding is_error
merge_first_non_error rs = first_non_error rs none rs

-- `mergeConfigGet`: `seen` and `merged`, over the pairs of one answer.
unfoldable pub was_seen : Bytes → List Bytes → Bool
unfolding bytes_eq
was_seen key [] = false
was_seen key (k ∷ ks) = bytes_eq k key || was_seen key ks

abbrev pub merge_pairs : List Bytes → Values → Values → List Bytes × Values
merge_pairs seen merged nil = (seen, merged)
merge_pairs seen merged (cons k nil) = (seen, merged)
merge_pairs seen merged (cons k (cons v more)) =
    let skipped = merge_pairs seen merged more in
    let taken = merge_pairs (str_of k ∷ seen) (append_all merged (cons k (cons v nil))) more in
    if was_seen (str_of k) seen then skipped else taken

unfoldable pub merge_config_get : List Bytes → Values → List (Result Value) → Result Value
unfolding is_error was_seen str_of
merge_config_get seen merged [] = done (array merged)
merge_config_get seen merged (failed e ∷ rs) = failed e
merge_config_get seen merged (done v ∷ rs) =
    let rest =
      merge_config_get (merge_pairs seen merged (elements v)).0
        (merge_pairs seen merged (elements v)).1 rs in
    if is_error v then done v else rest

-- The loop of `executeScriptExists`, at one script: whether every master has it.
abbrev pub nth : Values → ℕ → Option Value
nth nil i = none
nth (cons v vs) zero = some v
nth (cons v vs) (suc i) = nth vs i

abbrev pub is_there : Option Value → Bool
is_there (some (integer n)) = not (n == 0)
is_there _ = false

unfoldable pub all_exist : ℕ → List Value → Bool
all_exist i [] = true
all_exist i (v ∷ vs) = is_there (nth (elements v) i) && all_exist i vs

abbrev pub exists_from : ℕ → ℕ → List Value → List Value
exists_from i zero vs = []
exists_from i (suc n) vs = integer (if all_exist i vs then 1 else 0) ∷ exists_from (suc i) n vs

-- The first error of the results, or all values.
abbrev pub all_done : List (Result Value) → Result (List Value)
all_done [] = done []
all_done (failed e ∷ rs) = failed e
all_done (done v ∷ rs) = elim (all_done rs) [ done vs ↦ done (v ∷ vs) | failed e ↦ failed e ]

-- From the results of `executeScriptExists` on, for a number of scripts; an empty slice is nil.
abbrev pub exists_of : ℕ → Result (List Value) → Result Value
exists_of scripts (failed e) = failed e
exists_of zero (done vs) = done (array nil)
exists_of (suc n) (done []) = done (array nil)
exists_of (suc n) (done (v ∷ vs)) = done (array (values (exists_from 0 (suc n) (v ∷ vs))))

unfoldable pub merge_script_exists : ℕ → List (Result Value) → Result Value
unfolding all_exist
merge_script_exists scripts rs = exists_of scripts (all_done rs)

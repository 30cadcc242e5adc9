-- ===== src/Engine/Split/Merge.antt =====
-- The three `mergeFunc`s of `routeMultiKeyToMux`.
pub mod Mget
pub mod Sum
use pluster.Prelude.{
  ℕ, zero, suc, Option, none, some, List, [], ◌∷◌, ◌++◌, if◌then◌else◌, Bytes, bytes_eq, codes, set,
}
use pluster.Proto.Outcome.{Outcome, ok, incomplete, invalid, panicked, stuck}
use pluster.Proto.Int64.{add64, append_int}
use pluster.Proto.Value.{
  Value, error, integer, array, nil_array, nil_pointer, Values, nil, cons, is_error,
}
use pluster.Proto.Parse.{parse_value}
use pluster.Proto.Encode.{crlf, encode_value, encode_error, encode_simple_string, encode_integer}

-- `proto.ParseValue(sub.data)`: a value, nil where the data ends too early, or an error.
pub data Parsed : Type 0 where
  parsed : Value → Parsed
  failed : Parsed

unfoldable pub parse_sub : Outcome (Value × ℕ) → Outcome Parsed
parse_sub (ok (v, e)) = ok (parsed v)
parse_sub incomplete = ok (parsed nil_pointer)
parse_sub invalid = ok failed
parse_sub panicked = panicked
parse_sub stuck = stuck

-- `proto.EncodeError(err.Error())`.
abbrev protocol_error : Bytes
protocol_error = encode_error (codes "invalid RESP protocol")

-- `results[origIdx] = proto.EncodeValue(v.Array[j])`, for each `j` there is.
unfoldable pub place : List ℕ → Values → List (Option Bytes) → List (Option Bytes)
place [] vs results = results
place (i ∷ is) nil results = results
place (i ∷ is) (cons v vs) results = place is vs (set results i (some (encode_value v)))

-- What a reply to a part of MGET does to `results`, or the answer that it ends the merge with.
pub data Placed : Type 0 where
  placed : List (Option Bytes) → Placed
  answered : Bytes → Placed
  panics : Placed

unfoldable pub place_reply : List ℕ → Bytes → Value → List (Option Bytes) → Placed
unfolding place
place_reply indices raw nil_pointer results = panics
place_reply indices raw (error msg) results = answered raw
place_reply indices raw (array vs) results = placed (place indices vs results)
place_reply indices raw _ results = placed results

abbrev place_parsed : List ℕ → Bytes → Outcome Parsed → List (Option Bytes) → Placed
place_parsed indices raw (ok (parsed v)) results = place_reply indices raw v results
place_parsed indices raw (ok failed) results = answered protocol_error
place_parsed indices raw _ results = panics

-- The last loop: each result, or a nil bulk string.
unfoldable pub append_results : Bytes → List (Option Bytes) → Bytes
append_results buf [] = buf
append_results buf (none ∷ rs) = append_results (buf ++ codes "$-1\r\n") rs
append_results buf (some r ∷ rs) = append_results (buf ++ r) rs

unfoldable pub finish_mget : ℕ → List (Option Bytes) → Bytes
unfolding append_results append_int
finish_mget total results = append_results (append_int (b'*' ∷ []) total ++ crlf) results

-- The loop over the groups, at the indices of each group and the data of each part.
unfoldable pub mget_from : ℕ → List (List ℕ) → List Bytes → List (Option Bytes) → Outcome Bytes
unfolding place_reply finish_mget parse_sub parse_value
mget_from total [] subs results = ok (finish_mget total results)
mget_from total (is ∷ groups) [] results = panicked
mget_from total (is ∷ groups) (sub ∷ subs) results =
    elim (place_parsed is sub (parse_sub (parse_value sub)) results) [
      | placed results' ↦ mget_from total groups subs results'
      | answered answer ↦ ok answer
      | panics ↦ panicked
    ]

unfoldable pub no_results : ℕ → List (Option Bytes)
no_results zero = []
no_results (suc n) = none ∷ no_results n

-- The merge of MGET.
unfoldable pub merge_mget : ℕ → List (List ℕ) → List Bytes → Outcome Bytes
unfolding mget_from no_results
merge_mget total groups subs = mget_from total groups subs (no_results total)

-- The merge of MSET.
unfoldable pub merge_mset : List Bytes → Outcome Bytes
unfolding parse_sub parse_value
merge_mset [] = ok (encode_simple_string (codes "OK"))
merge_mset (sub ∷ subs) = elim (parse_sub (parse_value sub)) [
  | ok (parsed v) ↦ let rest = merge_mset subs in if is_error v then ok sub else rest
  | ok failed ↦ ok protocol_error
  | _ ↦ panicked
]

-- The merge of the commands that count keys; `total` is an int64.
abbrev add_integer : ℕ → Value → ℕ
add_integer total (integer n) = add64 total n
add_integer total _ = total

unfoldable pub merge_sum : ℕ → List Bytes → Outcome Bytes
unfolding parse_sub parse_value
merge_sum total [] = ok (encode_integer total)
merge_sum total (sub ∷ subs) = elim (parse_sub (parse_value sub)) [
  | ok (parsed v) ↦
      let rest = merge_sum (add_integer total v) subs in if is_error v then ok sub else rest
  | ok failed ↦ ok protocol_error
  | _ ↦ panicked
]

-- The merge function of a command.
unfoldable pub merge_of : Bytes → ℕ → List (List ℕ) → List Bytes → Outcome Bytes
unfolding merge_mget merge_mset merge_sum
merge_of name total groups subs =
    if bytes_eq name (codes "MGET")
    then merge_mget total groups subs
    else if bytes_eq name (codes "MSET")
    then merge_mset subs
    else merge_sum 0 subs

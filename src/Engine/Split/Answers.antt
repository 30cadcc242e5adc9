-- ===== src/Engine/Split/Answers.antt =====
-- A command on several keys from its split to its answer.
use pluster.Prelude.{ℕ, ◌<◌, ◌≡◌, subst, Option, List, [], map, Bytes, bytes_eq, codes, length}
use pluster.Proto.Outcome.{ok}
use pluster.Proto.Int64.{word}
use pluster.Proto.Value.{Value, array}
use pluster.Proto.Encode.{encode_value, encode_integer}
use pluster.Engine.Split.{SlotGroup, grouped, group_keys}
use pluster.Engine.Split.Merge.{merge_of}
use pluster.Engine.Split.Merge.Mget.{values_at, reply, Readable, merge_mget-replies}
use pluster.Engine.Split.Merge.Sum.{total, count_reply, merge_sum-group_keys}
use pluster.Engine.Split.Groups.{Splits, IsSplit, group_keys-Splits}

pub group_keys-IsSplit :
    (serving : ℕ → Option Bytes) (keys : List Bytes) (gs : List SlotGroup)
    → group_keys serving 0 keys [] ≡ grouped gs
    → IsSplit serving keys (length keys) gs
group_keys-IsSplit serving keys gs h =
    subst (Splits serving keys) h (group_keys-Splits serving keys)

-- Take the store as a function from keys to values. Where MGET is split, and the node of every part
-- answers it with the array of the values of its keys, the merge answers with the array of the
-- values of all keys, in the order in which the client named them, as one node that has all keys
-- would; every answer of a node is encodable and shorter than 2^63 bytes.
pub merge_of_mget :
    (store : Bytes → Value) (serving : ℕ → Option Bytes) (keys : List Bytes) (gs : List SlotGroup)
    → group_keys serving 0 keys [] ≡ grouped gs
    → Readable store keys gs
    → merge_of
        (codes "MGET")
        (length keys)
        (map (λ (g : SlotGroup). g.indices) gs)
        (map (reply store keys) gs)
      ≡ ok (encode_value (array (values_at store keys)))
unfolding merge_of bytes_eq
merge_of_mget store serving keys gs h r =
    let s = group_keys-IsSplit serving keys gs h in
    merge_mget-replies store keys gs s.indexed s.covered r

-- Where DEL is split, and the node of every part answers how many keys of its part it has removed,
-- `f` of a key being 1 where it has and 0 where it has not, the merge answers with how many keys of
-- the command have been removed, if that is below 2^64.
pub merge_of_del :
    (f : Bytes → ℕ) (serving : ℕ → Option Bytes) (keys : List Bytes) (gs : List SlotGroup)
    → group_keys serving 0 keys [] ≡ grouped gs
    → total f keys < word
    → merge_of
        (codes "DEL")
        (length keys)
        (map (λ (g : SlotGroup). g.indices) gs)
        (map (count_reply f) gs)
      ≡ ok (encode_integer (total f keys))
unfolding merge_of bytes_eq
merge_of_del f serving keys gs h b = merge_sum-group_keys f serving keys gs h b

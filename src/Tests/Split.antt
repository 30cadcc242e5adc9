-- ===== src/Tests/Split.antt =====
-- Commands on several keys, of pkg/engine/handler_routing.go.
use pluster.Prelude.{
  ℕ, ◌≡◌, refl, Option, none, some, List, [], ◌∷◌, map, arith, Bytes, codes, length, bytes_eq, true,
  false,
}
use pluster.Proto.Outcome.{ok}
use pluster.Proto.Value.{Value, bulk_string, array}
use pluster.Proto.Encode.{encode_value}
use pluster.Proto.Slot.{hash_slot}
use pluster.Proto.Request.{Request}
use pluster.Proto.Line.{read_line, read_body}
use pluster.Proto.Int64.{parse_int_bytes}
use pluster.Engine.Responses.{empty_slot}
use pluster.Engine.Responses.Steps.{new_client}
use pluster.Engine.Mux.{Mux, dialled, send}
use pluster.Engine.Split.{SlotGroup, grouped, group_keys, keys_of_command}
use pluster.Engine.Split.Merge.{merge_of}
use pluster.Engine.Split.Merge.Mget.{reply, values_at, Readable}
use pluster.Engine.Split.Answers.{merge_of_mget}
use pluster.Engine.Split.Reaches.{Reaches}
use pluster.Engine.Split.Route.{Routed, Routing, pending}

-- One node serves all slots.
abbrev one_node : ℕ → Option Bytes
one_node slot = some (codes "n1")

abbrev keys_abc : List Bytes
keys_abc = codes "a" ∷ codes "b" ∷ codes "{a}c" ∷ []

-- The first and the last key are of one slot.
abbrev groups_abc : List SlotGroup
groups_abc =
    record {
      slot = 15431;
      addr = codes "n1";
      indices = 0 ∷ 2 ∷ [];
      keys = codes "a" ∷ codes "{a}c" ∷ [];
    }
    ∷ record { slot = 3108; addr = codes "n1"; indices = 1 ∷ []; keys = codes "b" ∷ [] }
    ∷ []

keys_abc-groups : group_keys one_node 0 keys_abc [] ≡ grouped groups_abc
unfolding group_keys hash_slot
keys_abc-groups = refl

-- Every key has itself as its value.
abbrev echo : Bytes → Value
echo k = bulk_string k

keys_abc-Readable : Readable echo keys_abc groups_abc
unfolding encode_value
keys_abc-Readable = (((tt, (tt, tt)), omega arith), (((tt, tt), omega arith), tt))

merge_of_mget_example :
    merge_of
      (codes "MGET")
      (length keys_abc)
      (map (λ (g : SlotGroup). g.indices) groups_abc)
      (map (reply echo keys_abc) groups_abc)
    ≡ ok (encode_value (array (values_at echo keys_abc)))
merge_of_mget_example =
    merge_of_mget echo one_node keys_abc groups_abc keys_abc-groups keys_abc-Readable

-- The array on the wire.
mget_answer :
    merge_of
      (codes "MGET")
      3
      ((0 ∷ 2 ∷ []) ∷ (1 ∷ []) ∷ [])
      (codes "*2\r\n$1\r\na\r\n$4\r\n{a}c\r\n" ∷ codes "*1\r\n$1\r\nb\r\n" ∷ [])
    ≡ ok (codes "*3\r\n$1\r\na\r\n$1\r\nb\r\n$4\r\n{a}c\r\n")
unfolding merge_of bytes_eq read_line parse_int_bytes read_body encode_value
mget_answer = refl

-- Two pairs in different slots.
abbrev pairs : List Bytes
pairs = codes "a" ∷ codes "1" ∷ codes "b" ∷ codes "2" ∷ []

abbrev groups_ab : List SlotGroup
groups_ab =
    record { slot = 15431; addr = codes "n1"; indices = 0 ∷ []; keys = codes "a" ∷ [] }
    ∷ record { slot = 3108; addr = codes "n1"; indices = 1 ∷ []; keys = codes "b" ∷ [] }
    ∷ []

pairs-groups : group_keys one_node 0 (keys_of_command (codes "MSET") pairs) [] ≡ grouped groups_ab
unfolding group_keys hash_slot keys_of_command bytes_eq
pairs-groups = refl

abbrev no_backends : Mux
no_backends = record { conns = λ a. none; dialing = λ a. [] }

abbrev pub routing : Routing
routing = record {
  id = 7;
  env = record { is_client = λ c. true; dial_error = λ a. none; is_replica_addr = λ a. false };
  serving = one_node;
  node_addr_for_slot = λ slot reads. one_node slot;
}

abbrev get_a : Request
get_a = record { args = codes "GET" ∷ codes "a" ∷ []; raw = []; cmd = codes "GET" }

abbrev routed : Routed
routed = record {
  client = record new_client { queue = empty_slot ∷ [] };
  mux = (send routing.env no_backends (codes "n1") (pending 7 0 get_a false 0)).0;
  effects = dialled (codes "n1") ∷ [];
  submitted = none;
}

-- ===== src/Engine/Split.antt =====
-- `routeMultiKeyToMux` of pkg/engine/handler_routing.go: a command on several keys is split by hash
-- slot, and the replies to its parts are merged.
pub mod Merge
pub mod Groups
pub mod Route
pub mod Answers
pub mod Safe
pub mod Reaches
pub mod Pairs
use pluster.Prelude.{
  ℕ, zero, suc, ◌+◌, ◌*◌, ◌||◌, Bool, Option, none, some, List, [], ◌∷◌, ◌++◌, ◌==◌, if◌then◌else◌,
  Bytes, bytes_eq, codes,
}
use pluster.Proto.Outcome.{Outcome, ok, ◌>>=◌}
use pluster.Proto.Slot.{hash_slot}
use pluster.Proto.Command.{arg_at}

-- `slotGroup`, with the slot under which it stands in `slotMap`.
pub record SlotGroup : Type 0 where
  pub slot : ℕ
  pub addr : Bytes
  pub indices : List ℕ
  pub keys : List Bytes

-- `for i := 1; i < len(req.Args); i += 2 { keys = append(keys, req.Args[i]) }`, behind the name.
unfoldable pub every_second : List Bytes → List Bytes
every_second [] = []
every_second (k ∷ []) = k ∷ []
every_second (k ∷ v ∷ args) = k ∷ every_second args

abbrev pub is_mset : Bytes → Bool
is_mset name = bytes_eq name (codes "MSET")

abbrev pub takes_keys : Bytes → Bool
takes_keys name =
    bytes_eq name (codes "MGET")
    || bytes_eq name (codes "DEL")
    || bytes_eq name (codes "UNLINK")
    || bytes_eq name (codes "EXISTS")
    || bytes_eq name (codes "TOUCH")

-- `keys`, from the arguments behind the name.
unfoldable pub keys_of_command : Bytes → List Bytes → List Bytes
unfolding every_second
keys_of_command name args =
    if takes_keys name then args else if is_mset name then every_second args else []

-- What the loop over the keys ends with: the groups in the order of `slotOrder`, or a slot that no
-- node serves.
pub data Grouped : Type 0 where
  grouped : List SlotGroup → Grouped
  no_node : ℕ → Grouped

abbrev add_to : SlotGroup → ℕ → Bytes → SlotGroup
add_to g i k = record g { indices = g.indices ++ i ∷ []; keys = g.keys ++ k ∷ [] }

abbrev pub new_group : ℕ → ℕ → Bytes → Option Bytes → Option (List SlotGroup)
new_group slot i k none = none
new_group slot i k (some addr) =
    some (record { slot = slot; addr = addr; indices = i ∷ []; keys = k ∷ [] } ∷ [])

abbrev pub behind : SlotGroup → Option (List SlotGroup) → Option (List SlotGroup)
behind g none = none
behind g (some gs) = some (g ∷ gs)

-- One round of the loop: the key goes to the group of its slot, or opens one at the end. `serving`
-- is the address of `GetNodeForSlot`.
unfoldable pub add_key :
    (ℕ → Option Bytes) → ℕ → ℕ → Bytes → List SlotGroup → Option (List SlotGroup)
add_key serving slot i k [] = new_group slot i k (serving slot)
add_key serving slot i k (g ∷ gs) =
    let rest = add_key serving slot i k gs in
    if g.slot == slot then some (add_to g i k ∷ gs) else behind g rest

-- The loop over the keys.
unfoldable pub group_keys : (ℕ → Option Bytes) → ℕ → List Bytes → List SlotGroup → Grouped
unfolding add_key
group_keys serving i [] gs = grouped gs
group_keys serving i (k ∷ ks) gs = elim (add_key serving (hash_slot k) i k gs) [
  | none ↦ no_node (hash_slot k)
  | some gs' ↦ group_keys serving (suc i) ks gs'
]

-- The arguments of a part behind its name: the keys, each with its value for MSET. A value that is
-- not there is an index out of range.
unfoldable pub pairs_of : List Bytes → List ℕ → List Bytes → Outcome (List Bytes)
pairs_of args [] ks = ok []
pairs_of args (i ∷ is) [] = ok []
pairs_of args (i ∷ is) (k ∷ ks) = do
  v ← arg_at args (1 + i * 2 + 1)
  rest ← pairs_of args is ks
  ok (k ∷ v ∷ rest)

-- `subArgs`.
unfoldable pub sub_args : Bytes → List Bytes → Bytes → SlotGroup → Outcome (List Bytes)
unfolding pairs_of
sub_args name args first g =
    if is_mset name
    then (do pairs ← pairs_of args g.indices g.keys; ok (first ∷ pairs))
    else ok (first ∷ g.keys)

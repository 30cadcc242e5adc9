-- ===== src/Engine/Split/Route.antt =====
-- `routeToBackend`, `submitToRouter` and `routeMultiKeyToMux` of pkg/engine/handler_routing.go, and
-- `writeImmediate` of pkg/engine/handler.go: where a request of a client goes. `LoadTopo` is never
-- nil, since `NewManager` sets what it returns.
use pluster.Prelude.{
  ℕ, suc, ◌+◌, ◌-◌, ◌||◌, ◌&&◌, not, Bool, true, false, Option, none, some, List, [], ◌∷◌, ◌++◌,
  map, leb, ◌==◌, if◌then◌else◌, Bytes, bytes_eq, codes, length,
}
use pluster.Proto.Outcome.{Outcome, ok, ◌>>=◌}
use pluster.Proto.Int64.{format_int}
use pluster.Proto.Encode.{encode_error}
use pluster.Proto.Slot.{hash_slot}
use pluster.Proto.Request.{Request}
use pluster.Proto.Command.Info.{
  CmdInfo, has_flag, flag_write, flag_read, flag_multi_key, flag_all_nodes, flag_not_allowed,
}
use pluster.Proto.Command.{get_cmd_info, arg_at, first_key_in}
use pluster.Engine.Responses.{FanIn, Client, alloc_response_slot, update_slot}
use pluster.Engine.Mux.Conn.{PendingReq}
use pluster.Engine.Mux.{Mux, Effect, fill_slot, Env, send}
use pluster.Engine.Split.{
  SlotGroup, Grouped, grouped, no_node, group_keys, keys_of_command, sub_args,
}
use pluster.Engine.Split.Merge.{merge_of}

-- What a request does at once: to the queue of its client, to the mux, outside of both, and whether
-- a goroutine of the pool asks the router for the answer to a slot.
pub record Routed : Type 0 where
  pub client : Client
  pub mux : Mux
  pub effects : List Effect
  pub submitted : Option (ℕ × Request)

-- What the routing reads: the number of the client connection, the mux's surroundings, the address
-- of `GetNodeForSlot`, and `NodeAddrForSlot` of the router, for a slot and whether the command reads.
pub record Routing : Type 0 where
  pub id : ℕ
  pub env : Env
  pub serving : ℕ → Option Bytes
  pub node_addr_for_slot : ℕ → Bool → Option Bytes

-- `writeImmediate`; `fillResponseSlot` runs later in the event loop.
unfoldable pub write_immediate : ℕ → Client → Mux → Bytes → Routed
unfolding alloc_response_slot
write_immediate id c m b =
    if length c.queue == 0
    then record {
      client = record c { written = c.written ++ b ∷ [] };
      mux = m;
      effects = [];
      submitted = none;
    }
    else record {
      client = (alloc_response_slot c).0;
      mux = m;
      effects = fill_slot id (alloc_response_slot c).1 b ∷ [];
      submitted = none;
    }

-- `submitToRouter`.
unfoldable pub submit_to_router : Client → Mux → Request → Routed
unfolding alloc_response_slot
submit_to_router c m req = record {
  client = (alloc_response_slot c).0;
  mux = m;
  effects = [];
  submitted = some ((alloc_response_slot c).1, req);
}

-- A request of the client for the slot, not yet redirected.
abbrev pub pending : ℕ → ℕ → Request → Bool → ℕ → PendingReq
pending id slot_idx req fan_in fan_in_idx = record {
  client = id;
  slot_idx = slot_idx;
  depth = 0;
  req = req;
  skip_reply = false;
  is_ask_sentinel = false;
  fan_in = fan_in;
  fan_in_idx = fan_in_idx;
}

-- `mux.send`, of a request as a whole, for a new slot.
unfoldable pub send_whole : Routing → Client → Mux → Request → Bytes → Routed
unfolding alloc_response_slot send
send_whole r c m req addr =
    let (m', out) = send r.env m addr (pending r.id (alloc_response_slot c).1 req false 0) in
    record { client = (alloc_response_slot c).0; mux = m'; effects = out; submitted = none }

-- The request of a part; `Raw` is not set.
unfoldable pub sub_request : Request → Bytes → SlotGroup → Outcome Request
unfolding sub_args
sub_request req name g = do
  first ← arg_at req.args 0
  args ← sub_args name req.args first g
  ok (record { args = args; raw = []; cmd = req.cmd })

-- The last loop: each part is sent to the node of its group, with its number.
unfoldable pub send_parts :
    Routing → ℕ → Bytes → Request → ℕ → List SlotGroup → Mux → Outcome (Mux × List Effect)
unfolding sub_request send
send_parts r slot_idx name req gi [] m = ok (m, [])
send_parts r slot_idx name req gi (g ∷ gs) m = do
  part ← sub_request req name g
  let (m', out) = send r.env m g.addr (pending r.id slot_idx part true gi)
  (m'', out') ← send_parts r slot_idx name req (suc gi) gs m'
  ok (m'', out ++ out')

-- The data of a merge; where the merge panics, the process has ended.
unfoldable pub merged_data : Outcome Bytes → Bytes
merged_data (ok b) = b
merged_data _ = []

abbrev pub no_data : List SlotGroup → List Bytes
no_data gs = map (λ (g : SlotGroup). []) gs

-- `fi`, as it is made.
unfoldable pub new_fan_in : Bytes → ℕ → List SlotGroup → FanIn
unfolding merged_data merge_of
new_fan_in name total gs = record {
  total = length gs;
  received = 0;
  sub_data = no_data gs;
  merge_func =
      λ subs. merged_data (merge_of name total (map (λ (g : SlotGroup). g.indices) gs) subs);
}

-- `allocResponseSlot`, and `cctx.respQueue[relIdx].fanIn = fi`.
unfoldable pub alloc_fan_in : Client → FanIn → Client × ℕ
unfolding alloc_response_slot
alloc_fan_in c fi =
    let (c', i) = alloc_response_slot c in
    (
      record c' { queue = update_slot (i - c'.base) (λ s. record s { fan_in = some fi }) c'.queue },
      i,
    )

-- From the groups on.
unfoldable pub send_groups :
    Routing → Client → Mux → Request → Bytes → ℕ → List SlotGroup → Outcome Routed
unfolding send_whole new_fan_in alloc_fan_in send_parts
send_groups r c m req name total (g ∷ []) = ok (send_whole r c m req g.addr)
send_groups r c m req name total gs = do
  let (c', i) = alloc_fan_in c (new_fan_in name total gs)
  (m', out) ← send_parts r i name req 0 gs m
  ok (record { client = c'; mux = m'; effects = out; submitted = none })

-- `strings.ToLower`, over ASCII.
unfoldable pub lower : Bytes → Bytes
lower = map (λ c. if leb b'A' c && leb c b'Z' then c + 32 else c)

unfoldable pub wrong_number : Bytes → Bytes
unfolding lower
wrong_number name =
    encode_error ((codes "ERR wrong number of arguments for '" ++ lower name) ++ codes "' command")

abbrev pub no_node_for_slot : ℕ → Bytes
no_node_for_slot slot = encode_error (codes "ERR no node for slot " ++ format_int slot)

unfoldable pub not_supported : Bytes → Bytes
unfolding lower
not_supported name =
    encode_error
      ((codes "ERR command '" ++ lower name) ++ codes "' is not supported in cluster proxy")

abbrev pub args_behind : List Bytes → List Bytes
args_behind [] = []
args_behind (a ∷ args) = args

-- `routeMultiKeyToMux`.
unfoldable pub send_grouped :
    Routing → Client → Mux → Request → Bytes → ℕ → Grouped → Outcome Routed
unfolding send_groups write_immediate
send_grouped r c m req name total (grouped gs) = send_groups r c m req name total gs
send_grouped r c m req name total (no_node slot) =
    ok (write_immediate r.id c m (no_node_for_slot slot))

unfoldable pub route_multi_key_to_mux : Routing → Client → Mux → Request → Bytes → Outcome Routed
unfolding keys_of_command group_keys write_immediate send_grouped wrong_number
route_multi_key_to_mux r c m req name =
    let keys = keys_of_command name (args_behind req.args) in
    if length keys == 0
    then ok (write_immediate r.id c m (wrong_number name))
    else send_grouped r c m req name (length keys) (group_keys r.serving 0 keys [])

-- `GetFirstKeyAndInfo`.
unfoldable pub get_first_key_and_info : Request → Option Bytes × Option CmdInfo
get_first_key_and_info req =
    let info = get_cmd_info req.cmd in
    if length req.args == 0 then (none, none) else (first_key_in info req.args, info)

abbrev pub info_has : Option CmdInfo → ℕ → Bool
info_has none flag = false
info_has (some info) flag = has_flag info flag

-- The commands on several keys that the event loop splits itself.
abbrev pub split_here : Bytes → Bool
split_here cmd =
    bytes_eq cmd (codes "MGET")
    || bytes_eq cmd (codes "MSET")
    || bytes_eq cmd (codes "DEL")
    || bytes_eq cmd (codes "UNLINK")
    || bytes_eq cmd (codes "EXISTS")
    || bytes_eq cmd (codes "TOUCH")

unfoldable pub to_node : Routing → Client → Mux → Request → ℕ → Option Bytes → Routed
unfolding send_whole write_immediate
to_node r c m req slot none = write_immediate r.id c m (no_node_for_slot slot)
to_node r c m req slot (some addr) = send_whole r c m req addr

-- `routeToBackend`, from the key and the entry of the command on.
unfoldable pub route_keyed :
    Routing → Client → Mux → Request → Option CmdInfo → Bytes → Outcome Routed
unfolding submit_to_router route_multi_key_to_mux write_immediate to_node not_supported
route_keyed r c m req info key =
    if info_has info flag_not_allowed
    then ok (write_immediate r.id c m (not_supported req.cmd))
    else if info_has info flag_all_nodes
    then ok (submit_to_router c m req)
    else if info_has info flag_multi_key
    then (if split_here req.cmd
        then route_multi_key_to_mux r c m req req.cmd
        else ok (submit_to_router c m req))
    else let slot = hash_slot key in
      let is_read = info_has info flag_read && not (info_has info flag_write) in
      ok (to_node r c m req slot (r.node_addr_for_slot slot is_read))

unfoldable pub route_from :
    Routing → Client → Mux → Request → Option Bytes × Option CmdInfo → Outcome Routed
unfolding submit_to_router write_immediate route_keyed
route_from r c m req (none, info) =
    if info_has info flag_not_allowed
    then ok (write_immediate r.id c m (not_supported req.cmd))
    else ok (submit_to_router c m req)
route_from r c m req (some key, info) = route_keyed r c m req info key

-- `routeToBackend`.
unfoldable pub route_to_backend : Routing → Client → Mux → Request → Outcome Routed
unfolding get_first_key_and_info route_from
route_to_backend r c m req = route_from r c m req (get_first_key_and_info req)

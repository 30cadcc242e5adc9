-- ===== src/Engine/Split/Reaches.antt =====
-- Where `routeToBackend` and `routeMultiKeyToMux` of pkg/engine/handler_routing.go bring a request: to
-- the client itself, to the router, or to the nodes that serve its keys.
use pluster.Prelude.{
  ℕ, suc, ◌+◌, ◌≡◌, ◌≢◌, true, false, not, ◌&&◌, Option, none, some, List, [], ◌∷◌, ◌++◌, map,
  Bytes, length,
}
use pluster.Proto.Outcome.{Outcome, ok, ◌>>=◌}
use pluster.Proto.Encode.{encode_error}
use pluster.Proto.Slot.{hash_slot}
use pluster.Proto.Request.{Request}
use pluster.Proto.Command.Info.{CmdInfo, flag_read, flag_write}
use pluster.Engine.Responses.{Slot, Client, FanIn, empty_slot}
use pluster.Engine.Mux.Conn.{PendingReq}
use pluster.Engine.Mux.{Mux, Effect, fill_slot}
use pluster.Engine.Mux.Traffic.Answers.{Carries}
use pluster.Engine.Split.{SlotGroup, grouped, group_keys, keys_of_command}
use pluster.Engine.Split.Merge.{merge_of}
use pluster.Engine.Split.Route.{
  Routed, Routing, sub_request, merged_data, info_has, get_first_key_and_info, args_behind,
}

-- The index of the next slot of a client, and the client with one more slot at the end of its queue.
abbrev pub next_index : Client → ℕ
next_index c = c.base + length c.queue

abbrev pub with_slot : Client → Slot → Client
with_slot c s = record c { queue = c.queue ++ s ∷ [] }

-- A request that waits for its first reply: for a slot as a whole, and for a part of it.
abbrev pub for_slot : ℕ → ℕ → Request → PendingReq
for_slot id i req = record {
  client = id;
  slot_idx = i;
  depth = 0;
  req = req;
  skip_reply = false;
  is_ask_sentinel = false;
  fan_in = false;
  fan_in_idx = 0;
}

abbrev pub for_part : ℕ → ℕ → ℕ → Request → PendingReq
for_part id i sub req = record (for_slot id i req) { fan_in = true; fan_in_idx = sub }

-- Each group has its part of the request sent to its node, numbered from `sub` on, one after another.
pub data PartsSent (r : Routing) (name : Bytes) (req : Request) (i : ℕ)
    : ℕ → List SlotGroup → Mux → Mux → List Effect → Type 0 where
  all_sent : {sub : ℕ} (m : Mux) → PartsSent r name req i sub [] m m []
  part_sent :
      {sub : ℕ} {g : SlotGroup} {gs : List SlotGroup} {m next after : Mux} {out rest : List Effect}
      (part : Request)
      → sub_request req name g ≡ ok part
      → Carries r.env m g.addr [] (for_part r.id i sub part) next out
      → PartsSent r name req i (suc sub) gs next after rest
      → PartsSent r name req i sub (g ∷ gs) m after (out ++ rest)

-- What a slot waits for where a command is split.
pub record WaitsForAll (name : Bytes) (total : ℕ) (gs : List SlotGroup) (fi : FanIn) : Type 0 where
  pub expected : fi.total ≡ length gs
  pub none_yet : fi.received ≡ 0
  pub places : length fi.sub_data ≡ length gs
  pub merges :
      (subs : List Bytes)
      → fi.merge_func subs
        ≡ merged_data (merge_of name total (map (λ (g : SlotGroup). g.indices) gs) subs)

-- The keys of a command on several keys.
abbrev pub all_keys : Request → List Bytes
all_keys req = keys_of_command req.cmd (args_behind req.args)

-- What has become of a request.
pub data Reaches (r : Routing) (c : Client) (m : Mux) (req : Request) (x : Routed) : Type 0 where
  refused_now :
      (msg : Bytes)
      → c.queue ≡ []
      → x ≡ record {
        client = record c { written = c.written ++ encode_error msg ∷ [] };
        mux = m;
        effects = [];
        submitted = none;
      }
      → Reaches r c m req x
  refused_in_turn :
      (msg : Bytes)
      → c.queue ≢ []
      → x ≡ record {
        client = with_slot c empty_slot;
        mux = m;
        effects = fill_slot r.id (next_index c) (encode_error msg) ∷ [];
        submitted = none;
      }
      → Reaches r c m req x
  to_router :
      x ≡ record {
        client = with_slot c empty_slot;
        mux = m;
        effects = [];
        submitted = some (next_index c, req);
      }
      → Reaches r c m req x
  to_node_of_key :
      (key addr : Bytes) (info : Option CmdInfo)
      → get_first_key_and_info req ≡ (some key, info)
      → r.node_addr_for_slot
          (hash_slot key)
          (info_has info flag_read && not (info_has info flag_write))
        ≡ some addr
      → x.client ≡ with_slot c empty_slot
      → x.submitted ≡ none
      → Carries r.env m addr [] (for_slot r.id (next_index c) req) x.mux x.effects
      → Reaches r c m req x
  to_node_of_all :
      (g : SlotGroup)
      → group_keys r.serving 0 (all_keys req) [] ≡ grouped (g ∷ [])
      → x.client ≡ with_slot c empty_slot
      → x.submitted ≡ none
      → Carries r.env m g.addr [] (for_slot r.id (next_index c) req) x.mux x.effects
      → Reaches r c m req x
  in_parts :
      (gs : List SlotGroup) (fi : FanIn)
      → group_keys r.serving 0 (all_keys req) [] ≡ grouped gs
      → WaitsForAll req.cmd (length (all_keys req)) gs fi
      → x.client ≡ with_slot c (record empty_slot { fan_in = some fi })
      → x.submitted ≡ none
      → PartsSent r req.cmd req (next_index c) 0 gs m x.mux x.effects
      → Reaches r c m req x

module _ (r : Routing) (c : Client) (m : Mux) (req : Request)
    (there : r.env.is_client r.id ≡ true) where
  abbrev Ok : Outcome Routed → Type 0
  Ok o = (x : Routed) → o ≡ ok x → Reaches r c m req x

-- ===== src/Engine/Handler/Once/Proxy.antt =====
-- Each PROXY command, and each that starts to block, adds one answer.
use pluster.Prelude.{
  refl, Option, none, some, List, [], ◌∷◌, ℕ, arith, if◌then◌else◌, Bytes, bytes_eq, codes,
  Bool-cases, inl, inr,
}
use pluster.Proto.Int64.{is_negative}
use pluster.Proto.Slot.{hash_slot}
use pluster.Proto.Request.{Request}
use pluster.Cluster.{get_node_for_slot}
use pluster.Router.Redirect.{atoi}
use pluster.Engine.Responses.{alloc_response_slot}
use pluster.Engine.Blocking.{reuse_from}
use pluster.Engine.Split.Route.{lower}
use pluster.Engine.Multi.{state_blocking}
use pluster.Engine.Multi.Dispatch.{all_in_slot}
use pluster.Engine.Handler.{
  Server, Ctx, reply_error, reply_simple, DialStart, dialling, unresolved, unregistered,
}
use pluster.Engine.Handler.Local.{handle_cluster_nodes}
use pluster.Engine.Handler.Proxy.{
  config_get, config_set, handle_config, handle_multiplexing, handle_proxy_cmd,
}
use pluster.Engine.Handler.Blocking.{
  end_blocking, dial_new, dial_blocking_from, dial_blocking_backend, block_at, block_on,
}
use pluster.Engine.Handler.Once.{
  Adds, Once, fill_response_slot_in_loop-Adds, alloc_response_slot-Adds, reply-Once,
  reply-after-Once, if-Once,
}

config_get-Once : (args : List Bytes) (c : Ctx) → Once c (config_get args c)
unfolding config_get
config_get-Once [] c = reply-Once _ c
config_get-Once (o ∷ args) c = search (if-Once, reply-Once)

set_number-Once :
    (n : Option ℕ) (c : Ctx)
    → Once c (elim n [
      | none ↦ reply_error (codes "ERR invalid value for max-clients") c
      | some n ↦
          if is_negative n
          then reply_error (codes "ERR invalid value for max-clients") c
          else reply_simple (codes "OK") (record c { max_clients = n })
    ])
set_number-Once none c = reply-Once _ c
set_number-Once (some n) c =
    if-Once c (is_negative n) _ _ (reply-Once _ c)
      (reply-after-Once _ c (record c { max_clients = n }) refl)

config_set-Once : (args : List Bytes) (c : Ctx) → Once c (config_set args c)
unfolding config_set
config_set-Once [] c = reply-Once _ c
config_set-Once (o ∷ []) c = reply-Once _ c
config_set-Once (o ∷ val ∷ args) c =
    if-Once c (bytes_eq (lower o) (codes "max-clients")) _ _ (set_number-Once (atoi val) c)
      (reply-Once _ c)

handle_config-Once : (args : List Bytes) (c : Ctx) → Once c (handle_config args c)
unfolding handle_config
handle_config-Once [] c = reply-Once _ c
handle_config-Once (a ∷ args) c = search (if-Once, reply-Once, config_get-Once, config_set-Once)

handle_multiplexing-Once : (args : List Bytes) (c : Ctx) → Once c (handle_multiplexing args c)
unfolding handle_multiplexing
handle_multiplexing-Once [] c = reply-Once _ c
handle_multiplexing-Once (a ∷ args) c = search (if-Once, reply-Once)

pub handle_proxy_cmd-Once :
    (srv : Server) (args : List Bytes) (c : Ctx) → Once c (handle_proxy_cmd srv args c)
unfolding handle_proxy_cmd handle_cluster_nodes
handle_proxy_cmd-Once srv [] c = reply-Once _ c
handle_proxy_cmd-Once srv (s ∷ args) c =
    search (if-Once, reply-Once, handle_config-Once, handle_multiplexing-Once) depth 8

-- Starting to block adds none beyond the slot.
record Same (c c' : Ctx) : Type 0 where
  adds : Adds 0 c.session.client c'.session.client

end_blocking-Same : (b : Bytes) (c : Ctx) → Same c (end_blocking b c)
unfolding end_blocking
end_blocking-Same b c = record {
  adds = fill_response_slot_in_loop-Adds c.session.client c.blocking_slot_idx b;
}

dial_new-Same :
    (addr : Bytes) (req : Request) (c : Ctx) (d : DialStart) → Same c (dial_new addr req c d)
dial_new-Same addr req c dialling = record { adds = omega arith }
dial_new-Same addr req c (unresolved e) = end_blocking-Same _ c
dial_new-Same addr req c (unregistered e) = end_blocking-Same _ c

dial_blocking_from-Same :
    (srv : Server) (addr : Bytes) (req : Request) (ns : List ℕ) (c : Ctx)
    → Same c (dial_blocking_from srv addr req ns c)
unfolding dial_blocking_from
dial_blocking_from-Same srv addr req [] c = dial_new-Same addr req c (srv.dial addr)
dial_blocking_from-Same srv addr req (n ∷ ns) c =
    let c' = record c { pool = (reuse_from c.pool addr (n ∷ ns)).0 } in
    elim (Bool-cases (srv.is_closed n)) [
      | inl y ↦ rw y (record { adds = (dial_blocking_from-Same srv addr req ns c').adds })
      | inr k ↦ rw k (record { adds = omega arith })
    ]

block_at-Once :
    (srv : Server) (req : Request) (slot : ℕ) (addr : Option Bytes) (c : Ctx)
    → Once c (block_at srv req slot addr c)
unfolding dial_blocking_backend
block_at-Once srv req slot none c = reply-Once _ c
block_at-Once srv req slot (some addr) c =
    let (client, i) = alloc_response_slot c.session.client in
    let c' = record c {
      session = record c.session { client = client; state = state_blocking };
      blocking_slot_idx = i;
    } in
    record {
      adds = omega (
        arith,
        alloc_response_slot-Adds c.session.client,
        (dial_blocking_from-Same srv addr req (c.pool.idle addr) c').adds,
      );
    }

pub block_on-Once :
    (srv : Server) (req : Request) (keys : List Bytes) (c : Ctx) → Once c (block_on srv req keys c)
unfolding block_on
block_on-Once srv req [] c = reply-Once _ c
block_on-Once srv req (k ∷ ks) c =
    if-Once c (all_in_slot (hash_slot k) ks) _ _
      (block_at-Once srv req (hash_slot k) (get_node_for_slot srv.topo (hash_slot k)) c)
      (reply-Once _ c)

-- ===== src/Cluster/Refresh/Failover.antt =====
-- A refresh where some entry points fail.
use pluster.Prelude.{◌≡◌, refl, ◌∙◌, ap, Option, none, some, List, [], ◌∷◌, ◌++◌, Bytes, All}
use pluster.Cluster.Parse.{parse_cluster_nodes}
use pluster.Cluster.Refresh.{
  Manager, Dial, fetch_from, stored, store, refresh_from, refresh_any, refresh, or_next, on_tick,
  or_same,
}

-- What the manager gets of an entry point.
abbrev heard : Dial → Manager → Bytes → Option Bytes
heard dial m ep = fetch_from (dial ep) m.username m.password

abbrev Fails : Dial → Manager → Bytes → Type 0
Fails dial m ep = heard dial m ep ≡ none

refresh_any-first :
    (dial : Dial) (m : Manager) (down : List Bytes) (ep : Bytes) (eps : List Bytes) (raw : Bytes)
    → All (Fails dial m) down
    → heard dial m ep ≡ some raw
    → refresh_any dial (down ++ ep ∷ eps) m ≡ some (store m (parse_cluster_nodes raw))
unfolding refresh_any refresh_from
refresh_any-first dial m [] ep eps raw h e =
    ap (λ o. or_next (stored m o) (refresh_any dial eps m)) e
refresh_any-first dial m (d ∷ down) ep eps raw h e =
    ap (λ o. or_next (stored m o) (refresh_any dial (down ++ ep ∷ eps) m)) h.0
    ∙ refresh_any-first dial m down ep eps raw h.1 e

refresh_any-none :
    (dial : Dial) (m : Manager) (eps : List Bytes)
    → All (Fails dial m) eps
    → refresh_any dial eps m ≡ none
unfolding refresh_any refresh_from
refresh_any-none dial m [] h = refl
refresh_any-none dial m (ep ∷ eps) h =
    ap (λ o. or_next (stored m o) (refresh_any dial eps m)) h.0 ∙ refresh_any-none dial m eps h.1

-- A refresh passes over the entry points that fail, in dialling, in AUTH or in the answer, and
-- stores what the first that answers says; those behind it are not asked.
pub refresh-first :
    (dial : Dial) (m : Manager) (down : List Bytes) (ep : Bytes) (eps : List Bytes) (raw : Bytes)
    → m.entry_points ≡ down ++ ep ∷ eps
    → All (Fails dial m) down
    → heard dial m ep ≡ some raw
    → refresh dial m ≡ some (store m (parse_cluster_nodes raw))
unfolding refresh
refresh-first dial m down ep eps raw p h e =
    ap (λ es. refresh_any dial es m) p ∙ refresh_any-first dial m down ep eps raw h e

-- A tick where all entry points fail leaves the manager as it is.
on_tick-none : (dial : Dial) (m : Manager) → All (Fails dial m) m.entry_points → on_tick dial m ≡ m
unfolding on_tick refresh
on_tick-none dial m h = ap (or_same m) (refresh_any-none dial m m.entry_points h)

-- ===== src/Engine/Pubsub.antt =====
-- `pubsubHub` of pkg/engine/pubsub_hub.go: who listens to which channel or pattern. A client
-- connection is a number; the maps are functions, with nil and the empty map alike.
pub mod Inverse
pub mod Messages
pub mod Shared
pub mod Runs
use pluster.Prelude.{
  ℕ, Bool, true, false, ◌||◌, List, [], ◌∷◌, ◌++◌, ◌==◌, if◌then◌else◌, Bytes, bytes_eq,
}

-- `subEntry`.
pub record SubEntry : Type 0 where
  pub client : ℕ
  pub is_glob : Bool

-- `subs`, `clientSubs`, and whether `cctx.state` of a client is `stateSubscribe`.
pub record Hub : Type 0 where
  pub subs : Bytes → List SubEntry
  pub client_subs : ℕ → List Bytes
  pub in_subscribe : ℕ → Bool

-- `for _, e := range entries { if e.clientConn == clientConn … }`.
unfoldable pub has_client : ℕ → List SubEntry → Bool
has_client c [] = false
has_client c (e ∷ es) = e.client == c || has_client c es

unfoldable pub has_pattern : Bytes → List Bytes → Bool
has_pattern p [] = false
has_pattern p (q ∷ qs) = bytes_eq q p || has_pattern p qs

abbrev pub with_subs : Hub → Bytes → List SubEntry → Hub
with_subs hub p es = record hub { subs = λ (q : Bytes). if bytes_eq p q then es else hub.subs q }

abbrev pub with_client_subs : Hub → ℕ → List Bytes → Hub
with_client_subs hub c ps = record hub {
  client_subs = λ (d : ℕ). if c == d then ps else hub.client_subs d;
}

abbrev pub with_state : Hub → ℕ → Bool → Hub
with_state hub c s = record hub {
  in_subscribe = λ (d : ℕ). if c == d then s else hub.in_subscribe d;
}

-- `hub.clientSubs[clientConn][pattern] = struct{}{}`.
abbrev pub insert_pattern : Bytes → List Bytes → List Bytes
insert_pattern p ps = if has_pattern p ps then ps else p ∷ ps

-- `addSub`.
unfoldable pub add_sub : ℕ → Bool → Hub → Bytes → Hub
add_sub c glob hub p =
    if has_client c (hub.subs p)
    then hub
    else with_client_subs
        (with_subs hub p (hub.subs p ++ record { client = c; is_glob = glob } ∷ [])) c
        (insert_pattern p (hub.client_subs c))

-- `append(entries[:i], entries[i+1:]...)` for the first entry of the client.
unfoldable pub remove_entry : ℕ → List SubEntry → List SubEntry
remove_entry c [] = []
remove_entry c (e ∷ es) = if e.client == c then es else e ∷ remove_entry c es

-- `delete(cs, pattern)`.
unfoldable pub delete_pattern : Bytes → List Bytes → List Bytes
delete_pattern p [] = []
delete_pattern p (q ∷ qs) =
    let rest = delete_pattern p qs in if bytes_eq q p then rest else q ∷ rest

-- `removeSub`.
unfoldable pub remove_sub : ℕ → Hub → Bytes → Hub
remove_sub c hub p =
    with_client_subs (with_subs hub p (remove_entry c (hub.subs p))) c
      (delete_pattern p (hub.client_subs c))

-- The loop of `removeAllSubs`, over `clientSubs[clientConn]`.
unfoldable pub remove_entries : ℕ → Hub → List Bytes → Hub
remove_entries c hub [] = hub
remove_entries c hub (p ∷ ps) = remove_entries c (with_subs hub p (remove_entry c (hub.subs p))) ps

unfoldable pub remove_all_subs : ℕ → Hub → Hub
unfolding remove_entries
remove_all_subs c hub = remove_entries c hub (hub.client_subs c)

-- `removeClient`.
unfoldable pub remove_client : ℕ → Hub → Hub
remove_client c hub = with_client_subs (remove_all_subs c hub) c []

abbrev pub each : (Hub → Bytes → Hub) → Hub → List Bytes → Hub
each f hub [] = hub
each f hub (p ∷ ps) = each f (f hub p) ps

-- `subscribe`, what it does to the maps; `channels` are `req.Args[1:]`.
unfoldable pub subscribe : ℕ → Bool → List Bytes → Hub → Hub
unfolding add_sub
subscribe c glob channels hub = each (add_sub c glob) (with_state hub c true) channels

abbrev pub unsubscribe_from : ℕ → List Bytes → Hub → Hub
unsubscribe_from c [] hub = remove_all_subs c hub
unsubscribe_from c (p ∷ ps) hub = each (remove_sub c) hub (p ∷ ps)

abbrev pub settle_state : ℕ → Hub → List Bytes → Hub
settle_state c hub [] = with_state (with_client_subs hub c []) c false
settle_state c hub (p ∷ ps) = hub

-- `unsubscribe`, what it does to the maps.
unfoldable pub unsubscribe : ℕ → List Bytes → Hub → Hub
unfolding remove_sub remove_all_subs
unsubscribe c channels hub =
    let left = unsubscribe_from c channels hub in settle_state c left (left.client_subs c)

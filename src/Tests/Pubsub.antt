-- ===== src/Tests/Pubsub.antt =====
-- The hub of pkg/engine/pubsub_hub.go.
use pluster.Prelude.{◌≡◌, refl, false, [], ◌∷◌, codes, bytes_eq}
use pluster.Engine.Pubsub.{
  Hub, has_client, has_pattern, add_sub, remove_client, subscribe, unsubscribe,
}
use pluster.Engine.Pubsub.Inverse.{IsInverse}
use pluster.Engine.Pubsub.Runs.{HubRun, fresh, subscribed, unsubscribed, closed, HubRun-IsInverse}

abbrev empty_hub : Hub
empty_hub = record { subs = λ p. []; client_subs = λ c. []; in_subscribe = λ c. false }

-- Two clients at "a", one of them at "b" too.
abbrev two_clients : Hub
two_clients =
    subscribe 2 false (codes "a" ∷ []) (subscribe 1 false (codes "b" ∷ codes "a" ∷ []) empty_hub)

two_clients_run : HubRun two_clients
two_clients_run =
    subscribed 2 false (codes "a" ∷ []) (subscribed 1 false (codes "b" ∷ codes "a" ∷ []) fresh)

HubRun-IsInverse_example : IsInverse (remove_client 2 (unsubscribe 1 (codes "b" ∷ []) two_clients))
HubRun-IsInverse_example =
    HubRun-IsInverse (closed 2 (unsubscribed 1 (codes "b") [] two_clients_run))

channels_of_one : two_clients.client_subs 1 ≡ codes "a" ∷ codes "b" ∷ []
unfolding subscribe add_sub has_client has_pattern bytes_eq
channels_of_one = refl

-- ===== src/Tests/Hub.antt =====
-- The shared connection of the hub of pkg/engine/pubsub_hub.go, and what it hands out.
use pluster.Prelude.{
  ◌<◌, ◌≡◌, refl, length, false, true, none, List, [], ◌∷◌, ◌++◌, take, if◌then◌else◌, Bytes, Bool,
  bytes_eq, codes, arith,
}
use pluster.Proto.Outcome.{ok}
use pluster.Proto.Int64.{half_word, append_int, format_int, decimal}
use pluster.Proto.Request.{Request}
use pluster.Proto.Value.{Value, bulk_string, has_prefix}
use pluster.Proto.Encode.{encode_value, append_value, append_bulk}
use pluster.Cluster.{Topology, all_masters}
use pluster.Engine.Split.Route.{lower}
use pluster.Engine.Pubsub.{Hub, has_client, has_pattern, add_sub, subscribe}
use pluster.Engine.Pubsub.Runs.{HubRun, HubRun-IsInverse}
use pluster.Engine.Pubsub.Runs
use pluster.Engine.Pubsub.Messages.{
  str_of_element, bulk_of_element, write_entries, pattern_message, write_patterns, dispatch_named,
  dispatch_message,
}
use pluster.Engine.Pubsub.Messages.FanOut.{
  to_client, listens, matched, channel_message, dispatch_message-to_client,
}
use pluster.Engine.Pubsub.Messages.Traffic.{
  on_shared_backend_traffic, stream, dispatch_all, on_shared_backend_traffic-stream,
}
use pluster.Engine.Pubsub.Shared.{
  Shared, new_pubsub_hub, subscribe_request, unsubscribe_request, dial_shared_backend,
  on_shared_backend_open,
}
use pluster.Engine.Pubsub.Shared.Greeting.{
  SharedRun, fresh, subscribed, unsubscribed, opened, Reaches, SharedRun-Reaches,
}

-- A pattern of one letter and a star.
abbrev first_letter : Bytes → Bytes → Bool
first_letter p s = has_prefix s (take 1 p)

abbrev listening : Hub
listening = subscribe 2 true (codes "n*" ∷ []) (
    subscribe 1 false (codes "news" ∷ [])
      (record { subs = λ p. []; client_subs = λ c. []; in_subscribe = λ c. false }))

listening_run : HubRun listening
listening_run =
    Runs.subscribed 2 true (codes "n*" ∷ [])
      (Runs.subscribed 1 false (codes "news" ∷ []) Runs.fresh)

abbrev keys_of_subs : List Bytes
keys_of_subs = codes "n*" ∷ codes "news" ∷ []

abbrev published : Value
published = channel_message (codes "news") (codes "x")

abbrev seen_by_backend : Value
seen_by_backend = pattern_message (codes "*") (codes "news") (bulk_string (codes "x"))

both_get_it :
    dispatch_message first_letter listening keys_of_subs published
    ≡ (1, encode_value published)
      ∷ (2, encode_value (pattern_message (codes "n*") (codes "news") (bulk_string (codes "x"))))
      ∷ []
unfolding dispatch_message dispatch_named lower str_of_element bulk_of_element bytes_eq
    write_entries write_patterns subscribe add_sub has_client has_pattern has_prefix
both_get_it = refl

-- The second client gets the publication again with the `pmessage` of the backend.
again :
    dispatch_message first_letter listening keys_of_subs seen_by_backend
    ≡ (2, encode_value (pattern_message (codes "n*") (codes "news") (bulk_string (codes "x")))) ∷ []
unfolding dispatch_message dispatch_named lower str_of_element bulk_of_element bytes_eq
    write_entries write_patterns subscribe add_sub has_client has_pattern has_prefix
again = refl

dispatch_message-to_client_example :
    (to_client 2 (dispatch_message first_letter listening keys_of_subs published)
      ≡ (if listens false 2 (listening.subs (codes "news"))
          then encode_value published ∷ []
          else [])
        ++ matched first_letter listening 2 (codes "news") (bulk_string (codes "x")) keys_of_subs)
    × (to_client 2 (dispatch_message first_letter listening keys_of_subs seen_by_backend)
        ≡ matched first_letter listening 2 (codes "news") (bulk_string (codes "x")) keys_of_subs)
dispatch_message-to_client_example =
    dispatch_message-to_client first_letter listening keys_of_subs (HubRun-IsInverse listening_run)
      2 (codes "news") (codes "x") (codes "*")

encoded_message : encode_value published ≡ codes "*3\r\n$7\r\nmessage\r\n$4\r\nnews\r\n$1\r\nx\r\n"
unfolding encode_value append_value append_bulk append_int format_int decimal
encoded_message = refl

short_message : length (encode_value published) < half_word
short_message = rw encoded_message (ground arith)

on_shared_backend_traffic-stream_example :
    on_shared_backend_traffic first_letter listening keys_of_subs
      (stream first_letter listening keys_of_subs (published ∷ []))
    ≡ ok (record {
      writes = dispatch_all first_letter listening keys_of_subs (published ∷ []);
      left = [];
      closes = false;
    })
on_shared_backend_traffic-stream_example =
    on_shared_backend_traffic-stream first_letter listening keys_of_subs (published ∷ [])
      (((tt, (tt, (tt, tt))), short_message), tt)

abbrev topology : Topology
topology = record {
  snap = record { nodes = []; slots = λ slot. none; masters = codes "n0" ∷ []; version = 1 };
  rr_counter = 0;
  msrr_counter = 0;
  version = 1;
}

abbrev to_news : Request
to_news = record { args = codes "SUBSCRIBE" ∷ codes "news" ∷ []; raw = []; cmd = codes "SUBSCRIBE" }

abbrev from_news : Request
from_news = record {
  args = codes "UNSUBSCRIBE" ∷ codes "news" ∷ [];
  raw = [];
  cmd = codes "UNSUBSCRIBE";
}

-- A client subscribes before the connection is open, and unsubscribes when it is.
abbrev waiting : Shared
waiting = subscribe_request (λ addr. true) topology 1 to_news new_pubsub_hub

abbrev open_again : Shared
open_again = (unsubscribe_request 1 from_news (on_shared_backend_open [] (codes "pw") waiting)).0

is_dialling : waiting.dialing ≡ true
unfolding subscribe_request dial_shared_backend all_masters
is_dialling = refl

no_backend : waiting.backend ≡ none
unfolding subscribe_request dial_shared_backend
no_backend = refl

shared_run : (due : List Request) × SharedRun [] (codes "pw") due open_again
shared_run = (
  _,
  unsubscribed 1 from_news (opened no_backend (subscribed (λ addr. true) topology 1 to_news fresh)),
)

SharedRun-Reaches_example :
    Reaches [] (codes "pw") shared_run.0 open_again.backend open_again.pending_clients
SharedRun-Reaches_example = SharedRun-Reaches [] (codes "pw") shared_run.1

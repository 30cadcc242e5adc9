-- ===== src/Engine/Pubsub/Messages.antt =====
-- `dispatchMessage` of pkg/engine/pubsub_hub.go: which clients get a message of the shared backend.
-- `filepath.Match` is a parameter, and so is the order in which Go ranges over `subs`, a list of its
-- keys. What is written to clients is a list of connections and data.
pub mod FanOut
pub mod Traffic
use pluster.Prelude.{
  ℕ, not, Bool, true, false, ◌||◌, List, [], ◌∷◌, ◌++◌, if◌then◌else◌, Bytes, bytes_eq, codes,
}
use pluster.Proto.Value.{
  Value, simple_string, error, bulk_string, nil_bulk_string, array, Values, nil, cons,
}
use pluster.Proto.Encode.{encode_value}
use pluster.Engine.Split.Route.{lower}
use pluster.Engine.Pubsub.{SubEntry, Hub}

abbrev pub Writes : Type 0
Writes = List (ℕ × Bytes)

-- `Str` of an element of the message.
unfoldable pub str_of_element : Value → Bytes
str_of_element (simple_string str) = str
str_of_element (error str) = str
str_of_element (bulk_string str) = str
str_of_element _ = []

-- `BulkValue(v.Str)`, which is nil where `Str` is.
unfoldable pub bulk_of_element : Value → Value
bulk_of_element (simple_string str) = bulk_string str
bulk_of_element (error str) = bulk_string str
bulk_of_element (bulk_string str) = bulk_string str
bulk_of_element _ = nil_bulk_string

-- Whether an entry is of a pattern, or of a channel.
abbrev pub is_kind : Bool → SubEntry → Bool
is_kind true e = e.is_glob
is_kind false e = not e.is_glob

-- `writeHubMsgToClient` for the entries of one kind.
unfoldable pub write_entries : Bool → Bytes → List SubEntry → Writes
write_entries glob encoded [] = []
write_entries glob encoded (e ∷ es) =
    let rest = write_entries glob encoded es in
    if is_kind glob e then (e.client, encoded) ∷ rest else rest

-- `pmsg`.
abbrev pub pattern_message : Bytes → Bytes → Value → Value
pattern_message p channel payload = array (
    cons (bulk_string (codes "pmessage"))
      (cons (bulk_string p) (cons (bulk_string channel) (cons payload nil))))

module _ (glob_match : Bytes → Bytes → Bool) (hub : Hub) where
  -- The loop over the patterns that match a channel.
  unfoldable pub write_patterns : Bytes → Value → List Bytes → Writes
  unfolding write_entries encode_value
  write_patterns channel payload [] = []
  write_patterns channel payload (p ∷ ps) =
      let rest = write_patterns channel payload ps in
      if glob_match p channel
      then write_entries true (encode_value (pattern_message p channel payload)) (hub.subs p)
        ++ rest
      else rest

  -- The case of `pmessage`, at the elements from the third.
  abbrev pub dispatch_pmessage : List Bytes → Value → Values → Writes
  dispatch_pmessage patterns third nil = []
  dispatch_pmessage patterns third (cons fourth more) =
      write_patterns (str_of_element third) (bulk_of_element fourth) patterns

  -- The switch, at the name in lower case.
  unfoldable pub dispatch_named : List Bytes → Bytes → Bytes → Value → Value → Values → Writes
  unfolding write_patterns write_entries bytes_eq str_of_element bulk_of_element
  dispatch_named patterns name encoded second third more =
      if bytes_eq name (codes "psubscribe") || bytes_eq name (codes "punsubscribe")
      then []
      else if bytes_eq name (codes "subscribe") || bytes_eq name (codes "unsubscribe")
      then write_entries false encoded (hub.subs (str_of_element second))
      else if bytes_eq name (codes "message")
      then write_entries false encoded (hub.subs (str_of_element second))
        ++ write_patterns (str_of_element second) (bulk_of_element third) patterns
      else if bytes_eq name (codes "pmessage")
      then dispatch_pmessage patterns third more
      else []

  -- `dispatchMessage`.
  unfoldable pub dispatch_message : List Bytes → Value → Writes
  unfolding dispatch_named lower str_of_element encode_value
  dispatch_message patterns (array (cons first (cons second (cons third more)))) =
      dispatch_named patterns (lower (str_of_element first))
        (encode_value (array (cons first (cons second (cons third more))))) second third more
  dispatch_message patterns v = []

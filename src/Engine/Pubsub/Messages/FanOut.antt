-- ===== src/Engine/Pubsub/Messages/FanOut.antt =====
-- What one client gets of a message.
use pluster.Prelude.{
  ℕ, ◌≡◌, refl, sym, ◌∙◌, ap, Bool, true, false, ◌||◌, ◌&&◌, List, [], ◌∷◌, ◌++◌, ◌==◌,
  if◌then◌else◌, Bytes, bytes_eq, codes, ==_iff, Bool-cases, inl, inr, arith,
}
use pluster.Proto.Value.{Value, bulk_string, array, nil, cons}
use pluster.Proto.Encode.{encode_value}
use pluster.Engine.Split.Route.{lower}
use pluster.Engine.Pubsub.{SubEntry, Hub, has_client}
use pluster.Engine.Pubsub.Inverse.{is_unique, IsInverse}
use pluster.Engine.Pubsub.Messages.{
  Writes, str_of_element, bulk_of_element, is_kind, write_entries, pattern_message, write_patterns,
  dispatch_named, dispatch_message,
}

-- What is written to one client, in order.
unfoldable pub to_client : ℕ → Writes → List Bytes
to_client c [] = []
to_client c (w ∷ ws) = let rest = to_client c ws in if w.0 == c then w.1 ∷ rest else rest

-- Whether a client has an entry of the kind.
unfoldable pub listens : Bool → ℕ → List SubEntry → Bool
listens glob c [] = false
listens glob c (e ∷ es) = e.client == c && is_kind glob e || listens glob c es

to_client-append : (c : ℕ) (v w : Writes) → to_client c (v ++ w) ≡ to_client c v ++ to_client c w
unfolding to_client
to_client-append c [] w = refl
to_client-append c (x ∷ v) w = elim (Bool-cases (x.0 == c)) [
  | inl y ↦ rw (y, to_client-append c v w) refl
  | inr n ↦ rw (n, to_client-append c v w) refl
]

write_entries_absent :
    (glob : Bool) (c : ℕ) (encoded : Bytes) (es : List SubEntry)
    → has_client c es ≡ false
    → (to_client c (write_entries glob encoded es) ≡ []) × (listens glob c es ≡ false)
unfolding to_client write_entries has_client listens
write_entries_absent glob c encoded [] h = (refl, refl)
write_entries_absent glob c encoded (e ∷ es) h =
    let (w, l) = write_entries_absent glob c encoded es (ground arith) in
    let other : (e.client == c) ≡ false = ground arith in
    elim (Bool-cases (is_kind glob e)) [
      | inl y ↦ rw (y, other, l, w) (refl, refl)
      | inr n ↦ rw (n, other, l, w) (refl, refl)
    ]

to_client-write_entries :
    (glob : Bool) (c : ℕ) (encoded : Bytes) (es : List SubEntry)
    → is_unique es ≡ true
    → to_client c (write_entries glob encoded es) ≡ (if listens glob c es then encoded ∷ [] else [])
unfolding to_client write_entries is_unique listens
to_client-write_entries glob c encoded [] u = refl
to_client-write_entries glob c encoded (e ∷ es) u =
    let rest = to_client-write_entries glob c encoded es (ground arith) in
    elim (Bool-cases (e.client == c)) [
      | inr n ↦ elim (Bool-cases (is_kind glob e)) [
        | inl k ↦ rw (k, n) rest
        | inr k ↦ rw (k, n) rest
      ]
      | inl y ↦
          let absent : has_client c es ≡ false =
            ap (λ d. has_client d es) (sym ((==_iff e.client c).0 y)) ∙ (ground arith) in
          let (w, l) = write_entries_absent glob c encoded es absent in
          elim (Bool-cases (is_kind glob e)) [
            | inl k ↦ rw (k, y, w) refl
            | inr k ↦ rw (k, y, w, l) refl
          ]
    ]

-- The messages for the patterns of a client that match, in the order of the patterns.
unfoldable pub matched : (Bytes → Bytes → Bool) → Hub → ℕ → Bytes → Value → List Bytes → List Bytes
matched glob_match hub c channel payload [] = []
matched glob_match hub c channel payload (p ∷ ps) =
    let rest = matched glob_match hub c channel payload ps in
    if glob_match p channel && listens true c (hub.subs p)
    then encode_value (pattern_message p channel payload) ∷ rest
    else rest

abbrev pub channel_message : Bytes → Bytes → Value
channel_message channel payload = array (
    cons (bulk_string (codes "message"))
      (cons (bulk_string channel) (cons (bulk_string payload) nil)))

module _ (glob_match : Bytes → Bytes → Bool) (hub : Hub)
    (unique : (p : Bytes) → is_unique (hub.subs p) ≡ true) (c : ℕ) where
  to_client-write_patterns :
      (channel : Bytes) (payload : Value) (ps : List Bytes)
      → to_client c (write_patterns glob_match hub channel payload ps)
        ≡ matched glob_match hub c channel payload ps
  unfolding write_patterns matched to_client
  to_client-write_patterns channel payload [] = refl
  to_client-write_patterns channel payload (p ∷ ps) =
      let rest = to_client-write_patterns channel payload ps in
      elim (Bool-cases (glob_match p channel)) [
        | inr n ↦ rw n rest
        | inl y ↦
            let encoded = encode_value (pattern_message p channel payload) in
            let here = to_client-write_entries true c encoded (hub.subs p) (unique p) in
            rw
              (
                y,
                to_client-append c (write_entries true encoded (hub.subs p))
                    (write_patterns glob_match hub channel payload ps),
                here,
                rest,
              )
              (elim (Bool-cases (listens true c (hub.subs p))) [
                | inl l ↦ rw l refl
                | inr l ↦ rw l refl
              ])
      ]

-- Where the two maps of the hub say the same and name no client twice: of a message on a channel, a
-- client gets the message once if it listens to the channel, and after it one message for each
-- pattern, of those that the loop ranges over, that the client listens to and that matches; of a
-- message for whatever pattern of the backend, it gets again one for each of these patterns, and
-- nothing else.
pub dispatch_message-to_client :
    (glob_match : Bytes → Bytes → Bool) (hub : Hub) (patterns : List Bytes)
    → IsInverse hub
    → (c : ℕ) (channel payload p : Bytes)
    → (to_client c (dispatch_message glob_match hub patterns (channel_message channel payload))
        ≡ (if listens false c (hub.subs channel)
            then encode_value (channel_message channel payload) ∷ []
            else [])
          ++ matched glob_match hub c channel (bulk_string payload) patterns)
      × (to_client c (
            dispatch_message glob_match hub patterns
              (pattern_message p channel (bulk_string payload)))
          ≡ matched glob_match hub c channel (bulk_string payload) patterns)
unfolding dispatch_message dispatch_named lower str_of_element bulk_of_element bytes_eq
dispatch_message-to_client glob_match hub patterns i c channel payload p =
    let encoded = encode_value (channel_message channel payload) in
    let patterned =
      to_client-write_patterns glob_match hub i.unique c channel (bulk_string payload) patterns in
    (
      to_client-append c (write_entries false encoded (hub.subs channel))
            (write_patterns glob_match hub channel (bulk_string payload) patterns)
          ∙ rw
              (
                to_client-write_entries false c encoded (hub.subs channel) (i.unique channel),
                patterned,
              )
              refl,
      patterned,
    )

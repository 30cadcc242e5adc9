-- ===== src/Engine/Pubsub/Runs.antt =====
-- Clients come, subscribe, unsubscribe and go.
use pluster.Prelude.{
  ℕ, ◌≡◌, refl, sym, ◌∙◌, ap, Bool, true, false, ◌||◌, ◌&&◌, List, [], ◌∷◌, ◌==◌, if◌then◌else◌,
  Bytes, bytes_eq, bytes_eq_iff, ==_iff, Bool-cases, inl, inr, arith,
}
use pluster.Engine.Pubsub.{
  Hub, has_client, has_pattern, with_subs, with_state, add_sub, remove_entry, remove_sub,
  remove_entries, remove_all_subs, remove_client, each, subscribe, unsubscribe, settle_state,
}
use pluster.Engine.Pubsub.Inverse.{
  is_unique, IsInverse, add_sub-IsInverse, remove_sub-IsInverse, remove_entry_gone,
  remove_entry_other, is_unique-remove_entry,
}

each-IsInverse :
    (f : Hub → Bytes → Hub)
    → ((hub : Hub) (p : Bytes) → IsInverse hub → IsInverse (f hub p))
    → (hub : Hub) (ps : List Bytes) → IsInverse hub
    → IsInverse (each f hub ps)
each-IsInverse f keeps hub [] i = i
each-IsInverse f keeps hub (p ∷ ps) i = each-IsInverse f keeps (f hub p) ps (keeps hub p i)

subscribe-IsInverse :
    (c : ℕ) (glob : Bool) (ps : List Bytes) (hub : Hub)
    → IsInverse hub
    → IsInverse (subscribe c glob ps hub)
unfolding subscribe
subscribe-IsInverse c glob ps hub i =
    each-IsInverse (add_sub c glob) (λ h p j. add_sub-IsInverse h j c p glob)
      (with_state hub c true) ps (record { same = i.same; unique = i.unique })

settle_state-IsInverse :
    (c : ℕ) (hub : Hub) (ps : List Bytes)
    → hub.client_subs c ≡ ps
    → IsInverse hub
    → IsInverse (settle_state c hub ps)
settle_state-IsInverse c hub (p ∷ ps) e i = i
settle_state-IsInverse c hub [] e i = record {
  same = λ d q. elim (Bool-cases (c == d)) [
    | inl y ↦
        rw y (i.same d q ∙ ap (has_pattern q) (ap hub.client_subs (sym ((==_iff c d).0 y)) ∙ e))
    | inr n ↦ rw n (i.same d q)
  ];
  unique = i.unique;
}

unsubscribe-IsInverse :
    (c : ℕ) (p : Bytes) (ps : List Bytes) (hub : Hub)
    → IsInverse hub
    → IsInverse (unsubscribe c (p ∷ ps) hub)
unfolding unsubscribe
unsubscribe-IsInverse c p ps hub i =
    settle_state-IsInverse c (each (remove_sub c) hub (p ∷ ps)) _ refl
      (each-IsInverse (remove_sub c) (λ h q j. remove_sub-IsInverse h j c q) hub (p ∷ ps) i)

-- What the loop of `removeAllSubs` leaves of a list: the client is gone from those it has been at.
remove_entries-lem :
    (c : ℕ) (hub : Hub) (ps : List Bytes)
    → ((p : Bytes) → is_unique (hub.subs p) ≡ true)
    → ((p : Bytes) → is_unique ((remove_entries c hub ps).subs p) ≡ true)
      × ((d : ℕ) (q : Bytes)
          → has_client d ((remove_entries c hub ps).subs q)
            ≡ (if c == d && has_pattern q ps then false else has_client d (hub.subs q)))
      × ((remove_entries c hub ps).client_subs ≡ hub.client_subs)
unfolding remove_entries has_pattern
remove_entries-lem c hub [] u = (u, λ d q. ground arith, refl)
remove_entries-lem c hub (p ∷ ps) u =
    let (u', h, k) =
      remove_entries-lem c (with_subs hub p (remove_entry c (hub.subs p))) ps unique_after in
    (u', λ d q. h d q ∙ step d q, k)
  where
    unique_after :
        (q : Bytes)
        → is_unique (if bytes_eq p q then remove_entry c (hub.subs p) else hub.subs q) ≡ true
    unique_after q = elim (Bool-cases (bytes_eq p q)) [
      | inl y ↦ rw y (is_unique-remove_entry c (hub.subs p) (u p))
      | inr n ↦ rw n (u q)
    ]

    gone : (d : ℕ) → (c == d) ≡ true → has_client d (remove_entry c (hub.subs p)) ≡ false
    gone d z =
        ap (λ x. has_client x (remove_entry c (hub.subs p))) (sym ((==_iff c d).0 z))
        ∙ remove_entry_gone c (hub.subs p) (u p)

    never : (b : Bool) → (if b then false else false) ≡ false
    never true = refl
    never false = refl

    step :
        (d : ℕ) (q : Bytes)
        → (if c == d && has_pattern q ps
            then false
            else has_client d (if bytes_eq p q then remove_entry c (hub.subs p) else hub.subs q))
          ≡ (if c == d && (bytes_eq p q || has_pattern q ps)
              then false
              else has_client d (hub.subs q))
    step d q = elim (Bool-cases (bytes_eq p q)) [
      | inr n ↦ rw n refl
      | inl y ↦ elim (Bool-cases (c == d)) [
        | inl z ↦
            rw (y, z)
              (ap (λ b. if has_pattern q ps then false else b) (gone d z)
                ∙ never (has_pattern q ps))
        | inr z ↦
            rw (y, z)
              (remove_entry_other c d (hub.subs p) z
                ∙ ap (λ x. has_client d (hub.subs x)) ((bytes_eq_iff p q).0 y))
      ]
    ]

if_listed : (b x : Bool) → x ≡ b → (if b then false else x) ≡ false
if_listed true x e = refl
if_listed false x e = e

pub remove_client-IsInverse : (c : ℕ) (hub : Hub) → IsInverse hub → IsInverse (remove_client c hub)
unfolding remove_client remove_all_subs has_pattern
remove_client-IsInverse c hub i =
    let (u, h, k) = remove_entries-lem c hub (hub.client_subs c) i.unique in
    record {
      same = λ d q. elim (Bool-cases (c == d)) [
        | inl y ↦ rw y (
            h d q
            ∙ rw y (
                if_listed (has_pattern q (hub.client_subs c)) (has_client d (hub.subs q)) (
                  i.same d q
                  ∙ ap (λ x. has_pattern q (hub.client_subs x)) (sym ((==_iff c d).0 y)))))
        | inr n ↦ rw n (h d q ∙ rw n (i.same d q ∙ ap (λ f. has_pattern q (f d)) (sym k)))
      ];
      unique = u;
    }

pub remove_client_other :
    (c d : ℕ) (hub : Hub) (q : Bytes)
    → IsInverse hub
    → (c == d) ≡ false
    → has_client d ((remove_client c hub).subs q) ≡ has_client d (hub.subs q)
unfolding remove_client remove_all_subs
remove_client_other c d hub q i n =
    let (u, h, k) = remove_entries-lem c hub (hub.client_subs c) i.unique in h d q ∙ rw n refl

-- Clients subscribe, unsubscribe from channels that they name, and close their connections.
pub data HubRun : Hub → Type 0 where
  fresh : HubRun (record { subs = λ p. []; client_subs = λ c. []; in_subscribe = λ c. false })
  subscribed :
      {hub : Hub} (c : ℕ) (glob : Bool) (ps : List Bytes)
      → HubRun hub
      → HubRun (subscribe c glob ps hub)
  unsubscribed :
      {hub : Hub} (c : ℕ) (p : Bytes) (ps : List Bytes)
      → HubRun hub
      → HubRun (unsubscribe c (p ∷ ps) hub)
  closed : {hub : Hub} (c : ℕ) → HubRun hub → HubRun (remove_client c hub)

-- Whatever clients subscribe to, unsubscribe from by name and however they leave, the list of the
-- clients of a channel and that of the channels of a client say the same, and name no client twice.
pub HubRun-IsInverse : {hub : Hub} → HubRun hub → IsInverse hub
unfolding has_client has_pattern is_unique
HubRun-IsInverse fresh = record { same = λ c p. refl; unique = λ p. refl }
HubRun-IsInverse (subscribed {hub} c glob ps run) =
    subscribe-IsInverse c glob ps hub (HubRun-IsInverse run)
HubRun-IsInverse (unsubscribed {hub} c p ps run) =
    unsubscribe-IsInverse c p ps hub (HubRun-IsInverse run)
HubRun-IsInverse (closed {hub} c run) = remove_client-IsInverse c hub (HubRun-IsInverse run)

remove_entries-in_subscribe :
    (c : ℕ) (hub : Hub) (ps : List Bytes)
    → (remove_entries c hub ps).in_subscribe ≡ hub.in_subscribe
unfolding remove_entries
remove_entries-in_subscribe c hub [] = refl
remove_entries-in_subscribe c hub (p ∷ ps) =
    remove_entries-in_subscribe c (with_subs hub p (remove_entry c (hub.subs p))) ps

settle_state-kept :
    (c : ℕ) (hub : Hub) (qs : List Bytes) (p : Bytes) (ps : List Bytes)
    → qs ≡ p ∷ ps
    → settle_state c hub qs ≡ hub
settle_state-kept c hub (q ∷ qs) p ps e = refl
settle_state-kept c hub [] p ps e = cc

-- A client that listens to anything and unsubscribes without naming channels is taken from the
-- lists of all channels, but `clientSubs` keeps its own, and its state stays as it was.
pub unsubscribe_all :
    (c : ℕ) (p : Bytes) (ps : List Bytes) (hub : Hub)
    → IsInverse hub
    → hub.client_subs c ≡ p ∷ ps
    → ((q : Bytes) → has_client c ((unsubscribe c [] hub).subs q) ≡ false)
      × ((unsubscribe c [] hub).client_subs c ≡ p ∷ ps)
      × ((unsubscribe c [] hub).in_subscribe c ≡ hub.in_subscribe c)
unfolding unsubscribe remove_all_subs
unsubscribe_all c p ps hub i e =
    let (u, h, k) = remove_entries-lem c hub (hub.client_subs c) i.unique in
    let listed = ap (λ f. f c) k ∙ e in
    let left = remove_entries c hub (hub.client_subs c) in
    let kept = settle_state-kept c left (left.client_subs c) p ps listed in
    (
      λ q. ap (λ x. has_client c (x.subs q)) kept ∙ h c q ∙ silent q,
      ap (λ x. x.client_subs c) kept ∙ listed,
      ap (λ x. x.in_subscribe c) kept
          ∙ ap (λ f. f c) (remove_entries-in_subscribe c hub (hub.client_subs c)),
    )
  where
    silent :
        (q : Bytes)
        → (if c == c && has_pattern q (hub.client_subs c) then false else has_client c (hub.subs q))
          ≡ false
    silent q =
        rw ((==_iff c c).1 refl)
          (if_listed (has_pattern q (hub.client_subs c)) (has_client c (hub.subs q)) (i.same c q))

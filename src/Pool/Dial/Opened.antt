-- ===== src/Pool/Dial/Opened.antt =====
-- What a connection of a pool has been told when a request gets it.
use pluster.Prelude.{
  ◌≡◌, refl, sym, subst, Bool, true, false, List, [], ◌∷◌, ◌++◌, some, Bytes, codes,
}
use pluster.Pool.Dial.{
  Peer, Reply, read_failed, value, Dialled, opened, refused, after_reply, ask, login, send_readonly,
  dial_as, Opener,
}
use pluster.Proto.Value.{
  simple_string, error, integer, bulk_string, array, nil_bulk_string, nil_array, nil_pointer,
}

-- The commands of a greeting: AUTH where there is a password, and READONLY where the pool is for
-- reads.
abbrev auth_part : Bytes → Bytes → List (List Bytes)
auth_part username [] = []
auth_part username (p ∷ password) = login username (p ∷ password) ∷ []

abbrev readonly_part : Bool → List (List Bytes)
readonly_part false = []
readonly_part true = (codes "READONLY" ∷ []) ∷ []

abbrev greeting_of : Bytes → Bytes → Bool → List (List Bytes)
greeting_of username password readonly = auth_part username password ++ readonly_part readonly

-- The node has answered each command with a value that is no error.
abbrev is_accepted : Reply → Bool
is_accepted (read_failed e) = false
is_accepted (value (error msg)) = false
is_accepted (value v) = true

unfoldable pub Accepts : Peer → List (List Bytes) → List (List Bytes) → Type 0
Accepts node sent [] = Unit
Accepts node sent (c ∷ cs) =
    (is_accepted (node (sent ++ c ∷ [])) ≡ true) × Accepts node (sent ++ c ∷ []) cs

pub record IsGreeted (node : Peer) (greeting done : List (List Bytes)) : Type 0 where
  pub sent : done ≡ greeting
  pub accepted : Accepts node [] greeting

opened_inj : {xs ys : List (List Bytes)} → opened xs ≡ opened ys → xs ≡ ys
opened_inj e = cc

after_reply-opened :
    (opener : Opener) (failure : Bytes) (sent : List (List Bytes)) (r : Reply)
    (done : List (List Bytes))
    → after_reply opener failure sent r ≡ opened done
    → (done ≡ sent) × (is_accepted r ≡ true)
after_reply-opened opener failure sent (read_failed e) done h = cc
after_reply-opened opener failure sent (value (error msg)) done h = cc
after_reply-opened opener failure sent (value (simple_string s)) done h = (sym (opened_inj h), refl)
after_reply-opened opener failure sent (value (integer n)) done h = (sym (opened_inj h), refl)
after_reply-opened opener failure sent (value (bulk_string s)) done h = (sym (opened_inj h), refl)
after_reply-opened opener failure sent (value (array vs)) done h = (sym (opened_inj h), refl)
after_reply-opened opener failure sent (value nil_bulk_string) done h = (sym (opened_inj h), refl)
after_reply-opened opener failure sent (value nil_array) done h = (sym (opened_inj h), refl)
after_reply-opened opener failure sent (value nil_pointer) done h = (sym (opened_inj h), refl)

-- A connection that a pool or a pipelined connection opens has taken AUTH, with the user and the password of the pool, where it
-- has a password, then READONLY, where the pool is for reads, and nothing else; and the node has
-- answered each of them without an error.
pub dial_as-IsGreeted :
    (opener : Opener) (node : Peer) (e addr username password : Bytes) (readonly : Bool)
    (done : List (List Bytes))
    → dial_as opener (some node) e addr username password readonly ≡ opened done
    → IsGreeted node (greeting_of username password readonly) done
unfolding dial_as Accepts
dial_as-IsGreeted opener node e addr username [] false done h = record {
  sent = sym (opened_inj h);
  accepted = tt;
}
dial_as-IsGreeted opener node e addr username [] true done h =
    let cmds = (codes "READONLY" ∷ []) ∷ [] in
    let (same, good) =
      after_reply-opened opener (codes "READONLY failed") cmds (node cmds) done h in
    record { sent = same; accepted = (good, tt) }
dial_as-IsGreeted opener node e addr username (p ∷ password) false done h =
    let cmds = login username (p ∷ password) ∷ [] in
    let (same, good) = after_reply-opened opener (codes "auth failed") cmds (node cmds) done h in
    record { sent = same; accepted = (good, tt) }
dial_as-IsGreeted opener node e addr username (p ∷ password) true done h =
    greeted (after_reply opener (codes "auth failed") first (node first)) refl h
  where
    first : List (List Bytes)
    first = login username (p ∷ password) ∷ []

    greeted :
        (d : Dialled)
        → after_reply opener (codes "auth failed") first (node first) ≡ d
        → send_readonly opener node true d ≡ opened done
        → IsGreeted node (greeting_of username (p ∷ password) true) done
    greeted (refused x) k l = cc
    greeted (opened sent) k l =
        let (all, good) =
          after_reply-opened opener (codes "auth failed") first (node first) sent k in
        let both = first ++ (codes "READONLY" ∷ []) ∷ [] in
        let asked =
          subst
            (λ xs.
              ask opener node (codes "READONLY failed") (codes "READONLY" ∷ []) (opened xs)
              ≡ opened done)
            all l in
        let (same, good') =
          after_reply-opened opener (codes "READONLY failed") both (node both) done asked in
        record { sent = same; accepted = (good, (good', tt)) }

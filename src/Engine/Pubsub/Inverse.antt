-- ===== src/Engine/Pubsub/Inverse.antt =====
-- The two maps of the hub are inverses of one another.
use pluster.Prelude.{
  ℕ, ◌≡◌, refl, sym, ◌∙◌, ap, Bool, true, false, ◌||◌, ◌&&◌, not, List, [], ◌∷◌, ◌++◌, ◌==◌,
  if◌then◌else◌, Bytes, bytes_eq, bytes_eq_iff, ==_iff, Bool-cases, inl, inr, arith,
}
use pluster.Engine.Pubsub.{
  SubEntry, Hub, has_client, has_pattern, with_subs, with_client_subs, insert_pattern, add_sub,
  remove_entry, delete_pattern, remove_sub,
}

-- A client stands in a list once at most.
unfoldable pub is_unique : List SubEntry → Bool
unfolding has_client
is_unique [] = true
is_unique (e ∷ es) = not (has_client e.client es) && is_unique es

-- A client listens to a channel in the one map exactly if it does in the other, once at most.
pub record IsInverse (hub : Hub) : Type 0 where
  pub same : (c : ℕ) (p : Bytes) → has_client c (hub.subs p) ≡ has_pattern p (hub.client_subs c)
  pub unique : (p : Bytes) → is_unique (hub.subs p) ≡ true

has_client-append :
    (c : ℕ) (es fs : List SubEntry) → has_client c (es ++ fs) ≡ (has_client c es || has_client c fs)
unfolding has_client
has_client-append c [] fs = refl
has_client-append c (e ∷ es) fs = ground (arith, has_client-append c es fs)

is_unique-append :
    (es : List SubEntry) (e : SubEntry)
    → is_unique es ≡ true
    → has_client e.client es ≡ false
    → is_unique (es ++ e ∷ []) ≡ true
unfolding is_unique has_client
is_unique-append [] e u h = refl
is_unique-append (d ∷ es) e u h =
    ground (arith, is_unique-append es e, has_client-append d.client es (e ∷ []))

pub remove_entry_gone :
    (c : ℕ) (es : List SubEntry) → is_unique es ≡ true → has_client c (remove_entry c es) ≡ false
unfolding remove_entry is_unique has_client
remove_entry_gone c [] u = refl
remove_entry_gone c (e ∷ es) u = elim (Bool-cases (e.client == c)) [
  | inl y ↦ let same : e.client ≡ c = ground arith in ground arith
  | inr n ↦ ground (arith, remove_entry_gone c es)
]

pub remove_entry_other :
    (c d : ℕ) (es : List SubEntry)
    → (c == d) ≡ false
    → has_client d (remove_entry c es) ≡ has_client d es
unfolding remove_entry has_client
remove_entry_other c d [] n = refl
remove_entry_other c d (e ∷ es) n = ground (arith, remove_entry_other c d es n)

pub is_unique-remove_entry :
    (c : ℕ) (es : List SubEntry) → is_unique es ≡ true → is_unique (remove_entry c es) ≡ true
unfolding is_unique remove_entry has_client
is_unique-remove_entry c [] u = refl
is_unique-remove_entry c (e ∷ es) u = elim (Bool-cases (e.client == c)) [
  | inl y ↦ ground arith
  | inr n ↦ ground (arith, is_unique-remove_entry c es, remove_entry_other c e.client es)
]

has_pattern-delete :
    (p q : Bytes) (ps : List Bytes)
    → has_pattern q (delete_pattern p ps) ≡ (if bytes_eq p q then false else has_pattern q ps)
unfolding delete_pattern has_pattern
has_pattern-delete p q [] = ground arith
has_pattern-delete p q (r ∷ ps) =
    ground (arith, has_pattern-delete p q ps, bytes_eq_iff p q, bytes_eq_iff r p, bytes_eq_iff r q)

pub has_pattern-equal :
    (p q : Bytes) (ps : List Bytes) → bytes_eq p q ≡ true → has_pattern p ps ≡ has_pattern q ps
has_pattern-equal p q ps h = ap (λ x. has_pattern x ps) ((bytes_eq_iff p q).0 h)

has_pattern-insert :
    (p q : Bytes) (ps : List Bytes)
    → has_pattern q (insert_pattern p ps) ≡ (bytes_eq p q || has_pattern q ps)
unfolding has_pattern
has_pattern-insert p q ps = elim (Bool-cases (has_pattern p ps)) [
  | inl there ↦ ground (arith, has_pattern-equal p q ps)
  | inr new ↦ ground arith
]

bytes_eq_refl : (p : Bytes) → bytes_eq p p ≡ true
bytes_eq_refl p = (bytes_eq_iff p p).1 refl

has_client-joined :
    (c d : ℕ) (glob : Bool) (es : List SubEntry)
    → has_client d (es ++ record { client = c; is_glob = glob } ∷ []) ≡ (has_client d es || c == d)
unfolding has_client
has_client-joined c d glob es =
    has_client-append d es (record { client = c; is_glob = glob } ∷ []) ∙ ground arith

-- One channel and one client are changed alike in both maps.
module _ (hub : Hub) (i : IsInverse hub) (c : ℕ) (p : Bytes) where
  changed-IsInverse :
      (es : List SubEntry) (ps : List Bytes)
      → is_unique es ≡ true
      → has_client c es ≡ has_pattern p ps
      → ((d : ℕ) → (c == d) ≡ false → has_client d es ≡ has_client d (hub.subs p))
      → ((q : Bytes) → bytes_eq p q ≡ false → has_pattern q ps ≡ has_pattern q (hub.client_subs c))
      → IsInverse (with_client_subs (with_subs hub p es) c ps)
  changed-IsInverse es ps u here others elsewhere = record {
    same = λ d q. same_at d q;
    unique = λ q. elim (Bool-cases (bytes_eq p q)) [ inl y ↦ rw y u | inr n ↦ rw n (i.unique q) ];
  }
    where
      same_at :
          (d : ℕ) (q : Bytes)
          → has_client d (if bytes_eq p q then es else hub.subs q)
            ≡ has_pattern q (if c == d then ps else hub.client_subs d)
      same_at d q = elim (Bool-cases (bytes_eq p q)) [
        | inl y ↦ elim (Bool-cases (c == d)) [
          | inl z ↦
              rw (y, z)
                (ap (λ x. has_client x es) (sym ((==_iff c d).0 z))
                  ∙ here
                  ∙ has_pattern-equal p q ps y)
          | inr z ↦
              rw (y, z) (others d z ∙ i.same d p ∙ has_pattern-equal p q (hub.client_subs d) y)
        ]
        | inr n ↦ elim (Bool-cases (c == d)) [
          | inl z ↦
              rw (n, z)
                (i.same d q
                  ∙ ap (λ x. has_pattern q (hub.client_subs x)) (sym ((==_iff c d).0 z))
                  ∙ sym (elsewhere q n))
          | inr z ↦ rw (n, z) (i.same d q)
        ]
      ]

  pub add_sub-IsInverse : (glob : Bool) → IsInverse (add_sub c glob hub p)
  unfolding add_sub
  add_sub-IsInverse glob = elim (Bool-cases (has_client c (hub.subs p))) [
    | inl there ↦ rw there i
    | inr new ↦
        let e : SubEntry = record { client = c; is_glob = glob } in
        rw new (
          changed-IsInverse (hub.subs p ++ e ∷ []) (insert_pattern p (hub.client_subs c))
            (is_unique-append (hub.subs p) e (i.unique p) new) here
            (λ d n. has_client-joined c d glob (hub.subs p) ∙ rw n (or_false _))
            (λ q n. has_pattern-insert p q (hub.client_subs c) ∙ rw n refl))
  ]
    where
      or_false : (b : Bool) → (b || false) ≡ b
      or_false b = ground arith

      here :
          has_client c (hub.subs p ++ record { client = c; is_glob = glob } ∷ [])
          ≡ has_pattern p (insert_pattern p (hub.client_subs c))
      here = ground (
        arith,
        has_client-joined c c glob (hub.subs p),
        has_pattern-insert p p (hub.client_subs c),
        bytes_eq_refl p,
      )

  pub remove_sub-IsInverse : IsInverse (remove_sub c hub p)
  unfolding remove_sub
  remove_sub-IsInverse =
      changed-IsInverse (remove_entry c (hub.subs p)) (delete_pattern p (hub.client_subs c))
        (is_unique-remove_entry c (hub.subs p) (i.unique p))
        (remove_entry_gone c (hub.subs p) (i.unique p) ∙ sym gone)
        (λ d n. remove_entry_other c d (hub.subs p) n)
        (λ q n. has_pattern-delete p q (hub.client_subs c) ∙ rw n refl)
    where
      gone : has_pattern p (delete_pattern p (hub.client_subs c)) ≡ false
      gone = has_pattern-delete p p (hub.client_subs c) ∙ rw (bytes_eq_refl p) refl

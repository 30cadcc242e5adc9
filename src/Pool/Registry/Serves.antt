-- ===== src/Pool/Registry/Serves.antt =====
-- What the registry hands out, whatever goroutines have done before.
use pluster.Prelude.{
  ◌≡◌, refl, sym, ◌∙◌, ap, subst, true, false, Option, none, some, List, [], ◌∷◌, ◌++◌, ◌==◌, Bytes,
  bytes_eq, bytes_eq_iff, length, length-append, Bool-cases, inl, inr, arith,
}
use pluster.Prelude.Index.{none-some}
use pluster.Proto.Outcome.{ok, panicked}
use pluster.Pool.Registry.{
  Handle, Registry, ro_suffix, cut_ro, handle_of, new_handle, find_pool, or_new, create, found_or,
  get_or_create, drop_found, remove, get_readonly_pool, send_request,
}
use pluster.Pool.Registry.Invariant.{
  RegistryRun, IsServed, find_pool-lem, create-IsServed, RegistryRun-IsServed,
}

-- The parts of `getOrCreate` under the lock for writing, of goroutines that have found nothing under
-- the lock for reading, one after another, for the keys `keys`.
unfoldable pub create_each : List Bytes → Registry → Registry
unfolding create
create_each [] r = r
create_each (key ∷ keys) r = create_each keys (create key r).0

-- What `getOrCreate` hands out; what who asks later gets; and what a goroutine gets that has found
-- nothing before and comes to the lock for writing later, behind other such goroutines.
pub record Serves (key : Bytes) (after : Registry) (h : Handle) : Type 0 where
  pub made_for : h ≡ new_handle h.number key
  pub is_open : after.closed h.number ≡ false
  pub again :
      (keys : List Bytes) → get_or_create key (create_each keys after) ≡ (create_each keys after, h)
  pub raced :
      (keys : List Bytes) → create key (create_each keys after) ≡ (create_each keys after, h)

or_new-found :
    (key : Bytes) (r : Registry) (o : Option Handle)
    → find_pool key r.pools ≡ o
    → find_pool key (or_new r key o).0.pools ≡ some (or_new r key o).1
unfolding find_pool
or_new-found key r (some h) e = e
or_new-found key r none e =
    let same : bytes_eq key key ≡ true = (bytes_eq_iff key key).1 refl in rw same refl

found_or-new :
    (key : Bytes) (r : Registry) (o : Option Handle)
    → found_or (or_new r key o) r o ≡ or_new r key o
found_or-new key r none = refl
found_or-new key r (some h) = refl

get_or_create-create : (key : Bytes) (r : Registry) → get_or_create key r ≡ create key r
unfolding get_or_create create
get_or_create-create key r = found_or-new key r (find_pool key r.pools)

-- A pool in the map stays the one of its key, whatever other goroutines make.
or_new-keeps :
    (key k : Bytes) (h : Handle) (r : Registry) (o : Option Handle)
    → find_pool k r.pools ≡ o
    → find_pool key r.pools ≡ some h
    → find_pool key (or_new r k o).0.pools ≡ some h
unfolding find_pool
or_new-keeps key k h r (some g) e f = f
or_new-keeps key k h r none e f = elim (Bool-cases (bytes_eq k key)) [
  | inl same ↦
      let here : find_pool key r.pools ≡ none =
        subst (λ a. find_pool a r.pools ≡ none) ((bytes_eq_iff k key).0 same) e in
      absurd (none-some (sym here ∙ f))
  | inr other ↦ rw (find_pool, other) f
]

create_each-keeps :
    (key : Bytes) (h : Handle) (keys : List Bytes) (r : Registry)
    → find_pool key r.pools ≡ some h
    → find_pool key (create_each keys r).pools ≡ some h
unfolding create_each create
create_each-keeps key h [] r f = f
create_each-keeps key h (k ∷ keys) r f =
    create_each-keeps key h keys (create k r).0 (or_new-keeps key k h r _ refl f)

create-Serves :
    (key : Bytes) (r : Registry) → IsServed r → Serves key (create key r).0 (create key r).1
unfolding create get_or_create
create-Serves key r s =
    let after = (create key r).0 in
    let h = (create key r).1 in
    let found : find_pool key after.pools ≡ some h =
      or_new-found key r (find_pool key r.pools) refl in
    let (same, live, low) =
      find_pool-lem after.built after.closed key after.pools h (create-IsServed key r s).pools
        found in
    let kept : (keys : List Bytes) → find_pool key (create_each keys after).pools ≡ some h =
      λ keys. create_each-keeps key h keys after found in
    record {
      made_for = same;
      is_open = live;
      again = λ keys.
          ap (found_or (create key (create_each keys after)) (create_each keys after)) (kept keys);
      raced = λ keys. ap (or_new (create_each keys after) key) (kept keys);
    }

-- However goroutines have made, removed and closed pools, the pool that `getOrCreate` gives for a key
-- is one for the address and the flag of this key, and it is open. Until a pool is removed or closed,
-- whoever asks for the key later gets the same pool, also a goroutine that has found none before and
-- comes to the lock for writing only then, behind any number of others that make pools.
pub RegistryRun-Serves :
    {r : Registry} (key : Bytes)
    → RegistryRun r
    → Serves key (get_or_create key r).0 (get_or_create key r).1
RegistryRun-Serves {r} key run =
    subst (λ x. Serves key x.0 x.1) (sym (get_or_create-create key r))
      (create-Serves key r (RegistryRun-IsServed run))

cut_ro-append : (addr : Bytes) → cut_ro (addr ++ ro_suffix) ≡ some addr
unfolding cut_ro bytes_eq
cut_ro-append [] = refl
cut_ro-append (c ∷ cs) =
    let longer : bytes_eq (c ∷ cs ++ ro_suffix) ro_suffix ≡ false =
      elim (Bool-cases (bytes_eq (c ∷ cs ++ ro_suffix) ro_suffix)) [
        | inl y ↦ absurd (
            omega (
              arith,
              length-append cs ro_suffix,
              ap length ((bytes_eq_iff (c ∷ cs ++ ro_suffix) ro_suffix).0 y),
            ))
        | inr n ↦ n
      ] in
    rw (longer, cut_ro-append cs) refl

-- The pool that `GetReadonlyPool` gives for an address is a read-only one of this address.
pub get_readonly_pool-addr :
    {r : Registry} (addr : Bytes)
    → RegistryRun r
    → let h = (get_readonly_pool addr r).1 in (h.addr ≡ addr) × (h.readonly ≡ true)
unfolding new_handle
get_readonly_pool-addr {r} addr run =
    let h = (get_readonly_pool addr r).1 in
    let served = RegistryRun-Serves (addr ++ ro_suffix) run in
    let same : h ≡ handle_of h.number (addr ++ ro_suffix) (some addr) =
      served.made_for ∙ ap (handle_of h.number (addr ++ ro_suffix)) (cut_ro-append addr) in
    (ap (λ (x : Handle). x.addr) same, ap (λ (x : Handle). x.readonly) same)

remove-closed :
    (key : Bytes) (r : Registry) (h : Handle)
    → find_pool key r.pools ≡ some h
    → (remove key r).closed h.number ≡ true
unfolding remove
remove-closed key r h e =
    let here : (h.number == h.number) ≡ true = ground arith in
    ap (λ o. (drop_found key o r).closed h.number) e ∙ rw here refl

-- A request that has got the pool of a key, and sends on it when the key has been removed in between,
-- panics; before the removal it would not have.
pub send_request-removed :
    {r : Registry} (key : Bytes)
    → RegistryRun r
    → let (after, h) = get_or_create key r in
      (send_request h after ≡ ok after) × (send_request h (remove key after) ≡ panicked)
unfolding send_request create
send_request-removed {r} key run =
    let (after, h) = get_or_create key r in
    let served = RegistryRun-Serves key run in
    let found : find_pool key after.pools ≡ some h =
      subst (λ (x : Registry × Handle). find_pool key x.0.pools ≡ some x.1)
        (sym (get_or_create-create key r)) (or_new-found key r (find_pool key r.pools) refl) in
    let shut = remove-closed key after h found in (rw served.is_open refl, rw shut refl)

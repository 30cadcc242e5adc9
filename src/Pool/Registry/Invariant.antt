-- ===== src/Pool/Registry/Invariant.antt =====
-- What holds of the registry in all interleavings of its critical sections.
use pluster.Prelude.{
  ℕ, ◌≤◌, ◌<◌, ◌≡◌, refl, sym, ◌∙◌, ap, subst, Bool, true, false, Option, none, some, List, [], ◌∷◌,
  ◌==◌, if◌then◌else◌, Bytes, bytes_eq, bytes_eq_iff, Bool-cases, inl, inr, arith,
}
use pluster.Prelude.Index.{some_inj}
use pluster.Pool.Registry.{
  Handle, Registry, new_pool_registry, cut_ro, handle_of, new_handle, find_pool, delete_pool,
  or_new, create, close_handle, drop_found, remove, close_each, close_all,
}

-- The pools in the map have falling numbers below a bound, each is the one for its key, and none of
-- them is closed.
unfoldable pub AreServed : ℕ → (ℕ → Bool) → List (Bytes × Handle) → Type 0
AreServed b closed [] = Unit
AreServed b closed ((k, h) ∷ ps) =
    (h.number < b)
    × (h ≡ new_handle h.number k)
    × (closed h.number ≡ false)
    × AreServed h.number closed ps

pub record IsServed (r : Registry) : Type 0 where
  pub pools : AreServed r.built r.closed r.pools
  pub unbuilt : (n : ℕ) → r.built ≤ n → r.closed n ≡ false

-- The registry over time: `create`, `remove` and `close_all`, from any goroutine, in any order.
pub data RegistryRun : Registry → Type 0 where
  fresh : RegistryRun new_pool_registry
  created : {r : Registry} (key : Bytes) → RegistryRun r → RegistryRun (create key r).0
  removed : {r : Registry} (key : Bytes) → RegistryRun r → RegistryRun (remove key r)
  all_closed : {r : Registry} → RegistryRun r → RegistryRun (close_all r)

AreServed-wider :
    (b c : ℕ) (closed : ℕ → Bool) (ps : List (Bytes × Handle))
    → b ≤ c
    → AreServed b closed ps
    → AreServed c closed ps
unfolding AreServed
AreServed-wider b c closed [] h s = tt
AreServed-wider b c closed ((k, x) ∷ ps) h (low, same, live, rest) = (omega arith, same, live, rest)

-- Closing a pool with a number that none of the pools has.
AreServed-closed :
    (b n : ℕ) (closed : ℕ → Bool) (ps : List (Bytes × Handle))
    → b ≤ n
    → AreServed b closed ps
    → AreServed b (λ m. if m == n then true else closed m) ps
unfolding AreServed
AreServed-closed b n closed [] h s = tt
AreServed-closed b n closed ((k, x) ∷ ps) h (low, same, live, rest) =
    let other : (x.number == n) ≡ false = ground arith in
    (low, same, rw other live, AreServed-closed x.number n closed ps (omega arith) rest)

delete_pool-AreServed :
    (b : ℕ) (closed : ℕ → Bool) (key : Bytes) (ps : List (Bytes × Handle))
    → AreServed b closed ps
    → AreServed b closed (delete_pool key ps)
unfolding AreServed delete_pool
delete_pool-AreServed b closed key [] s = tt
delete_pool-AreServed b closed key ((k, x) ∷ ps) (low, same, live, rest) =
    let kept = delete_pool-AreServed x.number closed key ps rest in
    elim (Bool-cases (bytes_eq k key)) [
      | inl y ↦ rw y (AreServed-wider x.number b closed (delete_pool key ps) (omega arith) kept)
      | inr n ↦ rw n (low, same, live, kept)
    ]

-- What the map holds for a key.
pub find_pool-lem :
    (b : ℕ) (closed : ℕ → Bool) (key : Bytes) (ps : List (Bytes × Handle)) (h : Handle)
    → AreServed b closed ps
    → find_pool key ps ≡ some h
    → (h ≡ new_handle h.number key) × (closed h.number ≡ false) × (h.number < b)
unfolding AreServed find_pool
find_pool-lem b closed key [] h s e = cc
find_pool-lem b closed key ((k, x) ∷ ps) h (low, same, live, rest) e =
    elim (Bool-cases (bytes_eq k key)) [
      | inl y ↦
          let found : x ≡ h = some_inj (sym (rw y refl) ∙ e) in
          subst (λ z. (z ≡ new_handle z.number key) × (closed z.number ≡ false) × (z.number < b))
            found (same ∙ ap (new_handle x.number) ((bytes_eq_iff k key).0 y), live, low)
      | inr n ↦
          let (same', live', low') =
            find_pool-lem x.number closed key ps h rest (sym (rw n refl) ∙ e) in
          (same', live', omega arith)
    ]

-- `remove` closes the pool of the key, and the others stay open.
delete_found-AreServed :
    (b : ℕ) (closed : ℕ → Bool) (key : Bytes) (ps : List (Bytes × Handle)) (h : Handle)
    → AreServed b closed ps
    → find_pool key ps ≡ some h
    → AreServed b (λ n. if n == h.number then true else closed n) (delete_pool key ps)
unfolding AreServed find_pool delete_pool
delete_found-AreServed b closed key [] h s e = cc
delete_found-AreServed b closed key ((k, x) ∷ ps) h (low, same, live, rest) e =
    elim (Bool-cases (bytes_eq k key)) [
      | inl y ↦
          let found : x ≡ h = some_inj (sym (rw y refl) ∙ e) in
          let kept =
            delete_pool-AreServed x.number (λ n. if n == x.number then true else closed n) key ps
              (AreServed-closed x.number x.number closed ps (omega arith) rest) in
          subst
            (λ z.
              AreServed b (λ n. if n == z.number then true else closed n)
                (delete_pool key ((k, x) ∷ ps)))
            found
            (rw y (
              AreServed-wider x.number b (λ n. if n == x.number then true else closed n)
                (delete_pool key ps) (omega arith) kept))
      | inr n ↦
          let e' : find_pool key ps ≡ some h = sym (rw n refl) ∙ e in
          let (same', live', low') = find_pool-lem x.number closed key ps h rest e' in
          let other : (x.number == h.number) ≡ false = ground arith in
          rw n (low, same, rw other live, delete_found-AreServed x.number closed key ps h rest e')
    ]

handle_of-number : (n : ℕ) (key : Bytes) (o : Option Bytes) → (handle_of n key o).number ≡ n
handle_of-number n key none = refl
handle_of-number n key (some addr) = refl

pub new_handle-number : (n : ℕ) (key : Bytes) → (new_handle n key).number ≡ n
unfolding new_handle
new_handle-number n key = handle_of-number n key (cut_ro key)

or_new-IsServed :
    (key : Bytes) (r : Registry) (o : Option Handle) → IsServed r → IsServed (or_new r key o).0
unfolding AreServed
or_new-IsServed key r (some h) s = s
or_new-IsServed key r none s =
    let number = new_handle-number r.built key in
    record {
      pools = (
        omega arith,
        ap (λ n. new_handle n key) (sym number),
        s.unbuilt (new_handle r.built key).number (omega arith),
        subst (λ n. AreServed n r.closed r.pools) (sym number) s.pools,
      );
      unbuilt = λ n h. s.unbuilt n (omega arith);
    }

pub create-IsServed : (key : Bytes) (r : Registry) → IsServed r → IsServed (create key r).0
unfolding create
create-IsServed key r s = or_new-IsServed key r (find_pool key r.pools) s

drop_found-IsServed :
    (key : Bytes) (r : Registry) (o : Option Handle)
    → find_pool key r.pools ≡ o
    → IsServed r
    → IsServed (drop_found key o r)
drop_found-IsServed key r none e s = s
drop_found-IsServed key r (some h) e s =
    let (same, live, low) = find_pool-lem r.built r.closed key r.pools h s.pools e in
    record {
      pools = delete_found-AreServed r.built r.closed key r.pools h s.pools e;
      unbuilt =
          λ n k. let other : (n == h.number) ≡ false = ground arith in rw other (s.unbuilt n k);
    }

remove-IsServed : (key : Bytes) (r : Registry) → IsServed r → IsServed (remove key r)
unfolding remove
remove-IsServed key r s = drop_found-IsServed key r (find_pool key r.pools) refl s

close_each-unbuilt :
    (b : ℕ) (ps : List (Bytes × Handle)) (r : Registry)
    → b ≤ r.built
    → AreServed b r.closed ps
    → ((n : ℕ) → r.built ≤ n → r.closed n ≡ false)
    → ((n : ℕ) → r.built ≤ n → (close_each ps r).closed n ≡ false)
      × ((close_each ps r).built ≡ r.built)
unfolding AreServed
close_each-unbuilt b [] r h s u = (u, refl)
close_each-unbuilt b ((k, x) ∷ ps) r h (low, same, live, rest) u =
    close_each-unbuilt x.number ps (close_handle x r) (omega arith)
      (AreServed-closed x.number x.number r.closed ps (omega arith) rest)
      (λ n k. let other : (n == x.number) ≡ false = ground arith in rw other (u n k))

close_all-IsServed : (r : Registry) → IsServed r → IsServed (close_all r)
unfolding close_all AreServed
close_all-IsServed r s =
    let (u, built) = close_each-unbuilt r.built r.pools r (omega arith) s.pools s.unbuilt in
    record { pools = tt; unbuilt = λ n h. u n (omega arith) }

pub RegistryRun-IsServed : {r : Registry} → RegistryRun r → IsServed r
unfolding AreServed
RegistryRun-IsServed fresh = record { pools = tt; unbuilt = λ n h. refl }
RegistryRun-IsServed (created {r} key run) = create-IsServed key r (RegistryRun-IsServed run)
RegistryRun-IsServed (removed {r} key run) = remove-IsServed key r (RegistryRun-IsServed run)
RegistryRun-IsServed (all_closed {r} run) = close_all-IsServed r (RegistryRun-IsServed run)

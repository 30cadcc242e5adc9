-- ===== src/Pool/Registry.antt =====
-- `poolRegistry` of pkg/pool/registry.go, and the two managers of pools over it. A pool is a handle
-- here; its number tells apart pools that have been made for the same key one after another.
pub mod Invariant
pub mod Serves
use pluster.Prelude.{
  ℕ, ◌+◌, Bool, true, false, ◌||◌, Option, none, some, List, [], ◌∷◌, ◌++◌, ◌==◌, if◌then◌else◌,
  Bytes, bytes_eq, codes,
}
use mathlib.Core.Option
use pluster.Proto.Outcome.{Outcome, ok, panicked}

pub record Handle : Type 0 where
  pub number : ℕ
  pub addr : Bytes
  pub readonly : Bool

-- `pools`, the last one made first; how many have been made; and which have been closed.
pub record Registry : Type 0 where
  pub pools : List (Bytes × Handle)
  pub built : ℕ
  pub closed : ℕ → Bool

-- `newPoolRegistry`.
abbrev pub new_pool_registry : Registry
new_pool_registry = record { pools = []; built = 0; closed = λ n. false }

-- What stands before the suffix "#ro", if the key ends in it: `strings.HasSuffix` and
-- `strings.TrimSuffix`.
abbrev pub ro_suffix : Bytes
ro_suffix = codes "#ro"

unfoldable pub cut_ro : Bytes → Option Bytes
unfolding bytes_eq
cut_ro [] = none
cut_ro (c ∷ cs) =
    let rest = cut_ro cs in
    if bytes_eq (c ∷ cs) ro_suffix then some [] else Option.map (λ (l : Bytes). c ∷ l) rest

abbrev pub handle_of : ℕ → Bytes → Option Bytes → Handle
handle_of n key none = record { number = n; addr = key; readonly = false }
handle_of n key (some addr) = record { number = n; addr = addr; readonly = true }

-- The factory, at the address and the flag that `getOrCreate` takes from the key.
unfoldable pub new_handle : ℕ → Bytes → Handle
unfolding cut_ro
new_handle n key = handle_of n key (cut_ro key)

-- `r.pools[key]`.
unfoldable pub find_pool : Bytes → List (Bytes × Handle) → Option Handle
unfolding bytes_eq
find_pool key [] = none
find_pool key ((k, h) ∷ ps) = let rest = find_pool key ps in if bytes_eq k key then some h else rest

-- `delete(r.pools, key)`.
unfoldable pub delete_pool : Bytes → List (Bytes × Handle) → List (Bytes × Handle)
unfolding bytes_eq
delete_pool key [] = []
delete_pool key ((k, h) ∷ ps) =
    let rest = delete_pool key ps in if bytes_eq k key then rest else (k, h) ∷ rest

-- The part of `getOrCreate` under the lock for writing. The part under the lock for reading before
-- it is `find_pool`; others may come between the two.
abbrev pub or_new : Registry → Bytes → Option Handle → Registry × Handle
or_new r key (some h) = (r, h)
or_new r key none = (
  record r { pools = (key, new_handle r.built key) ∷ r.pools; built = r.built + 1 },
  new_handle r.built key,
)

unfoldable pub create : Bytes → Registry → Registry × Handle
unfolding find_pool new_handle
create key r = or_new r key (find_pool key r.pools)

-- `getOrCreate`.
abbrev pub found_or : Registry × Handle → Registry → Option Handle → Registry × Handle
found_or made r none = made
found_or made r (some h) = (r, h)

unfoldable pub get_or_create : Bytes → Registry → Registry × Handle
unfolding find_pool create
get_or_create key r = found_or (create key r) r (find_pool key r.pools)

-- `p.Close()`.
abbrev pub close_handle : Handle → Registry → Registry
close_handle h r = record r { closed = λ (n : ℕ). if n == h.number then true else r.closed n }

-- `remove`.
abbrev pub drop_found : Bytes → Option Handle → Registry → Registry
drop_found key none r = r
drop_found key (some h) r = record (close_handle h r) { pools = delete_pool key r.pools }

unfoldable pub remove : Bytes → Registry → Registry
unfolding find_pool delete_pool
remove key r = drop_found key (find_pool key r.pools) r

-- `closeAll`.
abbrev pub close_each : List (Bytes × Handle) → Registry → Registry
close_each [] r = r
close_each ((k, h) ∷ ps) r = close_each ps (close_handle h r)

unfoldable pub close_all : Registry → Registry
close_all r = record (close_each r.pools r) { pools = [] }

-- `GetPool`, `GetReadonlyPool` and `RemovePool` of `Manager` and of `PipelinedManager`.
abbrev pub get_pool : Bytes → Registry → Registry × Handle
get_pool addr r = get_or_create addr r

abbrev pub get_readonly_pool : Bytes → Registry → Registry × Handle
get_readonly_pool addr r = get_or_create (addr ++ ro_suffix) r

abbrev pub remove_pool : Bytes → Registry → Registry
remove_pool addr r = remove (addr ++ ro_suffix) (remove addr r)

-- `do` of a connection of a pipelined pool, up to the answer: the send on `reqCh`, which panics where
-- `close` has closed the channel.
unfoldable pub send_request : Handle → Registry → Outcome Registry
send_request h r = if r.closed h.number then panicked else ok r

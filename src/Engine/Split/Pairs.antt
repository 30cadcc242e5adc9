-- ===== src/Engine/Split/Pairs.antt =====
-- The parts of MSET: each key goes with its own value, and no index is out of range.
use pluster.Prelude.{
  ℕ, zero, suc, ◌+◌, ◌*◌, ◌≡◌, refl, Option, some, List, [], ◌∷◌, arith, Bytes, bytes_eq, codes,
  get_elem?, All,
}
use pluster.Proto.Outcome.{ok}
use pluster.Proto.Command.{arg_at}
use pluster.Engine.Split.{
  SlotGroup, grouped, group_keys, every_second, keys_of_command, pairs_of, sub_args,
}
use pluster.Engine.Split.Merge.Mget.{Indexes}
use pluster.Engine.Split.Answers.{group_keys-IsSplit}

-- Keys and values alternate, and the last key has a value.
abbrev pub IsPaired : List Bytes → Type 0
IsPaired [] = Unit {0}
IsPaired (k ∷ []) = ⊥
IsPaired (k ∷ v ∷ args) = IsPaired args

abbrev pub values_of : List Bytes → List Bytes
values_of [] = []
values_of (k ∷ []) = []
values_of (k ∷ v ∷ args) = v ∷ values_of args

abbrev pub interleave : List Bytes → List Bytes → List Bytes
interleave [] vs = []
interleave (k ∷ ks) [] = []
interleave (k ∷ ks) (v ∷ vs) = k ∷ v ∷ interleave ks vs

-- The value of a key stands behind it.
value_behind :
    (args : List Bytes) (i : ℕ) (k : Bytes)
    → IsPaired args
    → get_elem? (every_second args) i ≡ some k
    → (v : Bytes) × (get_elem? args (i * 2 + 1) ≡ some v) × (get_elem? (values_of args) i ≡ some v)
unfolding every_second
value_behind [] i k p h = cc
value_behind (x ∷ []) i k p h = absurd p
value_behind (x ∷ v ∷ args) zero k p h = (v, refl, refl)
value_behind (x ∷ v ∷ args) (suc i) k p h =
    let (w, e, f) = value_behind args i k p h in
    let n : suc i * 2 + 1 ≡ suc (suc (i * 2 + 1)) = omega arith in (w, rw n e, f)

pairs_of-interleave :
    (first : Bytes) (args : List Bytes) (is : List ℕ) (ks : List Bytes)
    → IsPaired args
    → Indexes (every_second args) is ks
    → (vs : List Bytes) × (pairs_of (first ∷ args) is ks ≡ ok (interleave ks vs))
      × Indexes (values_of args) is vs
unfolding pairs_of
pairs_of-interleave first args [] [] p x = ([], refl, tt)
pairs_of-interleave first args [] (k ∷ ks) p x = absurd x
pairs_of-interleave first args (i ∷ is) [] p x = absurd x
pairs_of-interleave first args (i ∷ is) (k ∷ ks) p x =
    let (v, e, f) = value_behind args i k p x.0 in
    let (vs, e', f') = pairs_of-interleave first args is ks p x.1 in
    let n : 1 + i * 2 + 1 ≡ suc (i * 2 + 1) = omega arith in
    (v ∷ vs, rw (n, arg_at, e, e') refl, (f, f'))

abbrev PartOf : Bytes → List Bytes → SlotGroup → Type 0
PartOf first args g =
    (vs : List Bytes) × (sub_args (codes "MSET") (first ∷ args) first g
      ≡ ok (first ∷ interleave g.keys vs))
    × Indexes (values_of args) g.indices vs

parts_of :
    (first : Bytes) (args : List Bytes) (gs : List SlotGroup)
    → IsPaired args
    → All (λ g. Indexes (every_second args) g.indices g.keys) gs
    → All (PartOf first args) gs
unfolding sub_args bytes_eq
parts_of first args [] p x = tt
parts_of first args (g ∷ gs) p x =
    let (vs, e, f) = pairs_of-interleave first args g.indices g.keys p x.0 in
    ((vs, rw e refl, f), parts_of first args gs p x.1)

-- Where an MSET whose arguments are pairs of a key and a value is split, every part has the name of
-- the command and then each key of its group with a value behind it, the one that stands behind that
-- key in the command; so that no index is out of range.
pub sub_args_mset :
    (serving : ℕ → Option Bytes) (first : Bytes) (args : List Bytes) (gs : List SlotGroup)
    → IsPaired args
    → group_keys serving 0 (keys_of_command (codes "MSET") args) [] ≡ grouped gs
    → All
        (λ g.
          (vs : List Bytes) × (sub_args (codes "MSET") (first ∷ args) first g
            ≡ ok (first ∷ interleave g.keys vs))
          × Indexes (values_of args) g.indices vs)
        gs
unfolding keys_of_command bytes_eq
sub_args_mset serving first args gs p h =
    parts_of first args gs p (group_keys-IsSplit serving (every_second args) gs h).indexed

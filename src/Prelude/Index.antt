-- ===== src/Prelude/Index.antt =====
-- Lists by their indices: what a write changes, and equality from equal elements. What two options
-- that are equal hold.
use Prim.Native.Nat.{ℕ, zero, suc, ◌<◌}
use mathlib.Core.Path.{◌≡◌, refl, ap}
use mathlib.Core.Logic.{◌≢◌, ◌⊎◌, inl, inr}
use mathlib.Core.List.{List, [], ◌∷◌, ◌++◌, map}
use mathlib.Core.Option.{none, some}
use native.Mathlib.Omega.{arith}
use pluster.Prelude.Lists.{length, get_elem?, set}

module _ {ℓ} {A : Type ℓ} where
  pub length-set : (xs : List A) (i : ℕ) (v : A) → length (set xs i v) ≡ length xs
  length-set [] i v = refl
  length-set (x ∷ xs) zero v = refl
  length-set (x ∷ xs) (suc i) v = ap suc (length-set xs i v)

  pub set_same : (xs : List A) (i : ℕ) (v : A) → i < length xs → get_elem? (set xs i v) i ≡ some v
  set_same [] i v h = absurd (omega arith)
  set_same (x ∷ xs) zero v h = refl
  set_same (x ∷ xs) (suc i) v h = set_same xs i v (omega arith)

  pub set_other :
      (xs : List A) (i j : ℕ) (v : A) → j ≢ i → get_elem? (set xs i v) j ≡ get_elem? xs j
  set_other [] i j v n = refl
  set_other (x ∷ xs) zero zero v n = absurd (n refl)
  set_other (x ∷ xs) zero (suc j) v n = refl
  set_other (x ∷ xs) (suc i) zero v n = refl
  set_other (x ∷ xs) (suc i) (suc j) v n = set_other xs i j v (λ e. n (ap suc e))

  -- An index with an element is below the length.
  pub get_elem?-lt : (xs : List A) (i : ℕ) (a : A) → get_elem? xs i ≡ some a → i < length xs
  get_elem?-lt [] i a h = cc
  get_elem?-lt (x ∷ xs) zero a h = omega arith
  get_elem?-lt (x ∷ xs) (suc i) a h = omega (arith, get_elem?-lt xs i a h)

  pub get_elem?-behind :
      (front : List A) (x : A) (back : List A)
      → get_elem? (front ++ x ∷ back) (length front) ≡ some x
  get_elem?-behind [] x back = refl
  get_elem?-behind (y ∷ front) x back = get_elem?-behind front x back

  pub list_ext :
      (xs ys : List A)
      → length xs ≡ length ys
      → ((i : ℕ) → i < length xs → get_elem? xs i ≡ get_elem? ys i)
      → xs ≡ ys
  list_ext [] [] e h = refl
  list_ext [] (y ∷ ys) e h = absurd (omega arith)
  list_ext (x ∷ xs) [] e h = absurd (omega arith)
  list_ext (x ∷ xs) (y ∷ ys) e h =
      let p : some x ≡ some y = h 0 (omega arith) in
      let q : xs ≡ ys = list_ext xs ys (omega arith) (λ i l. h (suc i) (omega arith)) in cc

pub get_elem?-map {ℓ κ} :
    {A : Type ℓ} {B : Type κ} (f : A → B) (xs : List A) (i : ℕ) (a : A)
    → get_elem? xs i ≡ some a
    → get_elem? (map f xs) i ≡ some (f a)
get_elem?-map f [] i a h = cc
get_elem?-map f (x ∷ xs) zero a h = let e : x ≡ a = ground arith in ap (λ t. some (f t)) e
get_elem?-map f (x ∷ xs) (suc i) a h = get_elem?-map f xs i a h

-- An index among others, by recursion.
abbrev pub In : ℕ → List ℕ → Type 0
In i [] = ⊥
In i (x ∷ xs) = (i ≡ x) ⊎ In i xs

pub In-append_left : (i : ℕ) (xs ys : List ℕ) → In i xs → In i (xs ++ ys)
In-append_left i [] ys h = absurd h
In-append_left i (x ∷ xs) ys (inl e) = inl e
In-append_left i (x ∷ xs) ys (inr h) = inr (In-append_left i xs ys h)

pub In-append_last : (i : ℕ) (xs : List ℕ) → In i (xs ++ i ∷ [])
In-append_last i [] = inl refl
In-append_last i (x ∷ xs) = inr (In-append_last i xs)

pub get_elem?-below {ℓ} :
    {A : Type ℓ} (xs : List A) (i : ℕ) → i < length xs → (x : A) × (get_elem? xs i ≡ some x)
get_elem?-below [] i h = absurd (omega arith)
get_elem?-below (x ∷ xs) zero h = (x, refl)
get_elem?-below (x ∷ xs) (suc i) h = get_elem?-below xs i (omega arith)

pub some_inj {ℓ} : {A : Type ℓ} {a b : A} → some a ≡ some b → a ≡ b
some_inj e = cc

pub none-some {ℓ} : {A : Type ℓ} {a : A} → none ≡ some a → ⊥
none-some e = cc

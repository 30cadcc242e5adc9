-- ===== src/Engine/Handler/Blocking/Keys.antt =====
-- `extractBlockingKeys` of pkg/engine/handler_blocking.go, at large numbers of keys.
use pluster.Prelude.{
  ℕ, suc, ◌+◌, ◌-◌, ◌<◌, ◌≤◌, ◌≡◌, refl, sym, subst, Bool, true, false, ◌||◌, Option, none, some,
  List, [], Bytes, bytes_eq, bytes_eq_iff, codes, arith, length, ltb, if◌then◌else◌, Bool-cases,
  inl, inr, take, drop,
}
use pluster.Proto.Outcome.{Outcome, ok, panicked}
use pluster.Proto.Int64.{half_word, add64, lt64, is_negative}
use pluster.Proto.Request.{Request}
use pluster.Router.Redirect.{atoi}
use pluster.Engine.Split.Route.{args_behind}
use pluster.Engine.Handler.Blocking.{
  counted_keys, second_or_empty, is_last_timeout, extract_xread_keys, extract_blocking_keys,
}

counted_keys-ok :
    (args : List Bytes) (n : ℕ)
    → n < half_word - 3
    → (ks : List Bytes) × (counted_keys args (some n) ≡ ok ks)
counted_keys-ok args n h =
    let e : add64 3 n ≡ 3 + n = omega arith in
    let plus : is_negative (add64 3 n) ≡ false = rw e (ground arith) in
    elim (Bool-cases (lt64 0 n)) [
      | inr z ↦ rw z ([], refl)
      | inl z ↦ elim (Bool-cases (lt64 (add64 3 n) (suc (length args)))) [
        | inr y ↦ rw (z, y) ([], refl)
        | inl y ↦ rw (z, y, plus) (take n (drop 2 args), refl)
      ]
    ]

counted_keys-panicked :
    (args : List Bytes) (n : ℕ)
    → half_word - 3 ≤ n
    → n < half_word
    → length args < half_word - 1
    → counted_keys args (some n) ≡ panicked
counted_keys-panicked args n l h s =
    let e : add64 3 n ≡ 3 + n = omega arith in
    let minus : is_negative (add64 3 n) ≡ true = rw e (ground arith) in
    let positive : lt64 0 n ≡ true = ground arith in
    let below : lt64 (add64 3 n) (suc (length args)) ≡ true = rw e (ground arith) in
    rw (positive, below, minus) refl

-- Keys are found, or none.
record Finds (o : Outcome (List Bytes)) : Type 0 where
  finds : (ks : List Bytes) × (o ≡ ok ks)

if-Finds : (b : Bool) (x y : Outcome (List Bytes)) → Finds x → Finds y → Finds (if b then x else y)
if-Finds true x y p q = p
if-Finds false x y p q = q

ok-Finds : (ks : List Bytes) → Finds (ok ks)
ok-Finds ks = record { finds = (ks, refl) }

counted_keys-Finds :
    (args : List Bytes) (o : Option ℕ)
    → ((n : ℕ) → o ≡ some n → n < half_word - 3)
    → Finds (counted_keys args o)
counted_keys-Finds args none h = ok-Finds []
counted_keys-Finds args (some n) h = record { finds = counted_keys-ok args n (h n refl) }

-- Where the number of keys of BLMPOP and BZMPOP is below 2^63 - 3, the keys are found, or none are.
extract_blocking_keys-ok :
    (req : Request)
    → ((n : ℕ) → atoi (second_or_empty (args_behind req.args)) ≡ some n → n < half_word - 3)
    → (ks : List Bytes) × (extract_blocking_keys req ≡ ok ks)
unfolding extract_blocking_keys
extract_blocking_keys-ok req h =
    let args = args_behind req.args in
    (if-Finds (is_last_timeout req.cmd) _ _
      (if-Finds (ltb (length args) 2) _ _ (ok-Finds []) (ok-Finds (take (length args - 1) args)))
      (if-Finds (bytes_eq req.cmd (codes "BLMOVE")) _ _
        (if-Finds (ltb (length args) 5) _ _ (ok-Finds []) (ok-Finds (take 2 args)))
        (if-Finds (bytes_eq req.cmd (codes "BLMPOP") || bytes_eq req.cmd (codes "BZMPOP")) _ _
          (if-Finds (ltb (length args) 4) _ _ (ok-Finds [])
            (counted_keys-Finds args (atoi (second_or_empty args)) h))
          (if-Finds (bytes_eq req.cmd (codes "XREAD") || bytes_eq req.cmd (codes "XREADGROUP")) _ _
            (ok-Finds (extract_xread_keys args)) (ok-Finds []))))).finds

abbrev pub is_counted : Bytes → Bool
is_counted cmd = bytes_eq cmd (codes "BLMPOP") || bytes_eq cmd (codes "BZMPOP")

-- These names are none of the others.
counted_name :
    (cmd : Bytes)
    → is_counted cmd ≡ true
    → (is_last_timeout cmd ≡ false) × (bytes_eq cmd (codes "BLMOVE") ≡ false)
unfolding bytes_eq
counted_name cmd c = elim (Bool-cases (bytes_eq cmd (codes "BLMPOP"))) [
  | inl y ↦ named (codes "BLMPOP") y (refl, refl)
  | inr n ↦
      let y : bytes_eq cmd (codes "BZMPOP") ≡ true = rw n at c in
      named (codes "BZMPOP") y (refl, refl)
]
  where
    named :
        (name : Bytes)
        → bytes_eq cmd name ≡ true
        → (is_last_timeout name ≡ false) × (bytes_eq name (codes "BLMOVE") ≡ false)
        → (is_last_timeout cmd ≡ false) × (bytes_eq cmd (codes "BLMOVE") ≡ false)
    named name y p =
        subst (λ x. (is_last_timeout x ≡ false) × (bytes_eq x (codes "BLMOVE") ≡ false))
          (sym ((bytes_eq_iff cmd name).0 y)) p

-- BLMPOP and BZMPOP with a number of keys from 2^63 - 3 on, for which the end of the keys wraps to a
-- negative number, and at least three arguments more: the test of the length passes, and the slice
-- of the arguments panics.
pub extract_blocking_keys_overflow :
    (req : Request) (n : ℕ)
    → is_counted req.cmd ≡ true
    → 4 ≤ length (args_behind req.args)
    → length (args_behind req.args) < half_word - 1
    → atoi (second_or_empty (args_behind req.args)) ≡ some n
    → half_word - 3 ≤ n
    → n < half_word
    → extract_blocking_keys req ≡ panicked
unfolding extract_blocking_keys bytes_eq
extract_blocking_keys_overflow req n c l s a lo hi =
    let (t, m) = counted_name req.cmd c in
    let enough : ltb (length (args_behind req.args)) 4 ≡ false = ground arith in
    rw (extract_blocking_keys, t, m, c, enough, a)
      (counted_keys-panicked (args_behind req.args) n lo hi s)

-- ===== src/Router/Script/Laws.antt =====
-- A script goes to a node only where its keys are of one slot, and where `ExecScript` cannot panic.
use pluster.Prelude.{
  ℕ, zero, suc, ◌+◌, ◌-◌, ◌<◌, ◌≤◌, ◌≡◌, inl, inr, refl, sym, subst, ◌∙◌, false, Option, none, some,
  List, [], ◌∷◌, arith, Bytes, length, get_elem?, ltb, ◌==◌, ==_iff, Bool-cases, Option-cases,
  if◌then◌else◌,
}
use pluster.Prelude.Index.{get_elem?-below}
use pluster.Proto.Outcome.{ok, panicked, ◌>>=◌, >>=-eq-ok}
use pluster.Proto.Int64.{half_word, add64, lt64, is_negative}
use pluster.Proto.Slot.{hash_slot}
use pluster.Proto.Command.{arg_at}
use pluster.Router.Redirect.{atoi}
use pluster.Router.Script.{
  ScriptPlan, refuse, any_node, on_slot, check_keys, plan_keys, plan_number, plan_script,
  crossslot_script, not_an_integer_eval, wrong_number_eval,
}

-- The key at an argument is of a slot.
abbrev pub KeyAt : List Bytes → ℕ → ℕ → Type 0
KeyAt args slot i = (k : Bytes) × (get_elem? args i ≡ some k) × (hash_slot k ≡ slot)

-- What a plan says of `n` arguments from `i` on.
abbrev pub Agrees : List Bytes → ℕ → ℕ → ScriptPlan → Type 0
Agrees args i n (refuse msg) = Unit {0}
Agrees args i n any_node = Unit {0}
Agrees args i n (on_slot slot) = (j : ℕ) → j < n → KeyAt args slot (i + j)

arg_at-ok :
    (args : List Bytes) (i : ℕ) (k : Bytes) → arg_at args i ≡ ok k → get_elem? args i ≡ some k
arg_at-ok args i k h = elim (Option-cases (get_elem? args i)) [
  | inl e ↦ let no : panicked ≡ ok k = rw (arg_at, e) at h in cc
  | inr (a, e) ↦ let same : ok a ≡ ok k = rw (arg_at, e) at h in e ∙ cc
]

check_keys-Agrees :
    (args : List Bytes) (slot i left : ℕ) (plan : ScriptPlan) (s : ℕ)
    → check_keys args slot i left ≡ ok plan
    → plan ≡ on_slot s
    → (s ≡ slot) × ((j : ℕ) → j < left → KeyAt args slot (i + j))
unfolding check_keys
check_keys-Agrees args slot i zero plan s h p =
    let same : on_slot slot ≡ on_slot s = cc in (cc, λ j l. absurd (omega arith))
check_keys-Agrees args slot i (suc left) plan s h p =
    let (k, e, q) = >>=-eq-ok (arg_at args i) _ h in
    let (rest, e', q') = >>=-eq-ok (check_keys args slot (suc i) left) _ q in
    elim (Bool-cases (hash_slot k == slot)) [
      | inl y ↦
          let same : ok rest ≡ ok plan = rw y at q' in
          let (a, f) = check_keys-Agrees args slot (suc i) left rest s e' cc in
          (
            a,
            λ j l. elim (Bool-cases (j == 0)) [
              | inl z ↦
                  let at_i : i + j ≡ i = ground arith in
                  rw at_i (k, arg_at-ok args i k e, (==_iff (hash_slot k) slot).0 y)
              | inr z ↦
                  let shift : suc i + (j - 1) ≡ i + j = ground arith in
                  subst (KeyAt args slot) shift (f (j - 1) (ground arith))
            ],
          )
      | inr n ↦ let no : ok (refuse crossslot_script) ≡ ok plan = rw n at q' in cc
    ]

-- The keys are there.
check_keys-ok :
    (args : List Bytes) (slot i left : ℕ)
    → i + left ≤ length args
    → (plan : ScriptPlan) × (check_keys args slot i left ≡ ok plan)
unfolding check_keys
check_keys-ok args slot i zero h = (on_slot slot, refl)
check_keys-ok args slot i (suc left) h =
    let (k, e) = get_elem?-below args i (omega arith) in
    let (plan, p) = check_keys-ok args slot (suc i) left (omega arith) in
    (
      (if hash_slot k == slot then plan else refuse crossslot_script),
      rw (check_keys, arg_at, e, p) refl,
    )

plan_keys-on_slot :
    (args : List Bytes) (n slot : ℕ)
    → plan_keys args n ≡ ok (on_slot slot)
    → (j : ℕ) → j < n
    → KeyAt args slot (3 + j)
unfolding plan_keys
plan_keys-on_slot args n slot h j l = elim (Bool-cases (n == 0)) [
  | inl z ↦ absurd (ground arith)
  | inr z ↦ elim (Bool-cases (lt64 (length args) (add64 3 n))) [
    | inl y ↦ let no : ok (refuse wrong_number_eval) ≡ ok (on_slot slot) = rw (z, y) at h in cc
    | inr y ↦
        let h' : (arg_at args 3 >>= λ first. check_keys args (hash_slot first) 4 (n - 1))
            ≡ ok (on_slot slot) =
          rw (z, y) at h in
        let (k, e, q) = >>=-eq-ok (arg_at args 3) _ h' in
        let (a, f) = check_keys-Agrees args (hash_slot k) 4 (n - 1) (on_slot slot) slot q refl in
        elim (Bool-cases (j == 0)) [
          | inl j0 ↦ let at_3 : 3 + j ≡ 3 = ground arith in rw at_3 (k, arg_at-ok args 3 k e, sym a)
          | inr j1 ↦
              let shift : 4 + (j - 1) ≡ 3 + j = ground arith in
              rw a (subst (KeyAt args (hash_slot k)) shift (f (j - 1) (ground arith)))
        ]
  ]
]

plan_number-on_slot :
    (args : List Bytes) (num : Option ℕ) (slot : ℕ)
    → plan_number args num ≡ ok (on_slot slot)
    → (n : ℕ) × (num ≡ some n) × ((j : ℕ) → j < n → KeyAt args slot (3 + j))
plan_number-on_slot args none slot h = cc
plan_number-on_slot args (some n) slot h = elim (Bool-cases (is_negative n)) [
  | inl y ↦ let no : ok (refuse not_an_integer_eval) ≡ ok (on_slot slot) = rw y at h in cc
  | inr y ↦ (n, refl, plan_keys-on_slot args n slot (rw y at h))
]

-- Where `ExecScript` sends a script to the node of a slot, the third argument is a number, and as
-- many arguments behind it are keys of that slot.
pub plan_script-on_slot :
    (args : List Bytes) (slot : ℕ)
    → plan_script args ≡ ok (on_slot slot)
    → (num : Bytes) × (n : ℕ) × (get_elem? args 2 ≡ some num)
      × (atoi num ≡ some n)
      × ((j : ℕ) → j < n → KeyAt args slot (3 + j))
unfolding plan_script
plan_script-on_slot args slot h = elim (Bool-cases (ltb (length args) 3)) [
  | inl y ↦ let no : ok (refuse wrong_number_eval) ≡ ok (on_slot slot) = rw y at h in cc
  | inr y ↦
      let h' : (arg_at args 2 >>= λ num. plan_number args (atoi num)) ≡ ok (on_slot slot) =
        rw y at h in
      let (num, e, q) = >>=-eq-ok (arg_at args 2) _ h' in
      let (n, a, f) = plan_number-on_slot args (atoi num) slot q in
      (num, n, arg_at-ok args 2 num e, a, f)
]

-- A number of keys that three can be added to in 64 bits, or a fourth argument.
plan_keys-ok :
    (args : List Bytes) (n : ℕ)
    → 3 ≤ length args
    → length args < half_word
    → n + 3 < half_word
    → (plan : ScriptPlan) × (plan_keys args n ≡ ok plan)
unfolding plan_keys
plan_keys-ok args n l s b = elim (Bool-cases (n == 0)) [
  | inl z ↦ (any_node, rw z refl)
  | inr z ↦ elim (Bool-cases (lt64 (length args) (add64 3 n))) [
    | inl y ↦ (refuse wrong_number_eval, rw (z, y) refl)
    | inr y ↦
        let enough : 3 + n ≤ length args = ground arith in
        let (k, e) = get_elem?-below args 3 (ground arith) in
        let (plan, p) = check_keys-ok args (hash_slot k) 4 (n - 1) (ground arith) in
        (plan, rw (z, y, arg_at, e) p)
  ]
]

-- `ExecScript` does not panic where the number of keys is below 2^63 - 3: it refuses the script, or
-- finds a node for it.
pub plan_script-ok :
    (args : List Bytes)
    → length args < half_word
    → ((num : Bytes) (n : ℕ) → get_elem? args 2 ≡ some num → atoi num ≡ some n → n + 3 < half_word)
    → (plan : ScriptPlan) × (plan_script args ≡ ok plan)
unfolding plan_script
plan_script-ok args s small = elim (Bool-cases (ltb (length args) 3)) [
  | inl y ↦ (refuse wrong_number_eval, rw y refl)
  | inr y ↦
      let (num, e) = get_elem?-below args 2 (ground arith) in
      elim (Option-cases (atoi num)) [
        | inl a ↦ (refuse not_an_integer_eval, rw (y, arg_at, e, a) refl)
        | inr (n, a) ↦
            let b = small num n e a in
            let low : is_negative n ≡ false = ground arith in
            let (plan, p) = plan_keys-ok args n (ground arith) s b in
            (plan, rw (y, arg_at, e, a, low) p)
      ]
]

-- A script that gives its number of keys as 2^63 - 3 or more, and no key, makes `ExecScript` panic:
-- `3+numKeys` wraps around to a negative number, so that the check of the length passes.
pub plan_script-panics :
    (name body num : Bytes) (n : ℕ)
    → atoi num ≡ some n
    → half_word ≤ n + 3
    → n < half_word
    → plan_script (name ∷ body ∷ num ∷ []) ≡ panicked
unfolding plan_script plan_keys
plan_script-panics name body num n a b l =
    let low : is_negative n ≡ false = ground arith in
    let some_keys : (n == 0) ≡ false = ground arith in
    let wraps : lt64 3 (add64 3 n) ≡ false = ground arith in rw (a, low, some_keys, wraps) refl

-- ===== src/Proto/Command/Keys.antt =====
-- The table is consistent, and the keys of a request are found without a panic.
use pluster.Prelude.{
  ℕ, zero, suc, ◌+◌, ◌≤◌, ◌<◌, ◌≡◌, refl, ◌∙◌, ap, Bool, true, false, ◌&&◌, ◌||◌, not, some, List,
  [], ◌∷◌, leb, ◌==◌, Bool-cases, Option-cases, inl, inr, subst, arith, Bytes, bytes_eq, length,
  get_elem?,
}
use pluster.Proto.Outcome.{ok, >>=-eq-ok}
use pluster.Proto.Int64.{half_word, add64, lt64}
use pluster.Proto.Request.{Request}
use pluster.Proto.Command.Info.{CmdInfo, has_flag, flag_read, flag_write}
use pluster.Proto.Command.{
  cmd_table, find_command, get_cmd_info, arg_at, get_first_key_from_request, keys_from,
  last_position, step_or_one, keys_between, get_keys,
}

-- What every entry of the table is checked for: no command is both a read and a write, the first
-- key is at a small position, and the keys are one or two apart.
unfoldable entry_holds : CmdInfo → Bool
unfolding has_flag
entry_holds c =
    not (has_flag c flag_read && has_flag c flag_write)
    && leb c.key_spec.first_key 3
    && leb c.key_spec.step 2

unfoldable all_hold : List CmdInfo → Bool
all_hold [] = true
all_hold (c ∷ cs) = entry_holds c && all_hold cs

table_holds : all_hold cmd_table ≡ true
unfolding all_hold entry_holds
table_holds = refl

find_command-holds :
    (name : Bytes) (cs : List CmdInfo) (c : CmdInfo)
    → find_command name cs ≡ some c
    → all_hold cs ≡ true
    → entry_holds c ≡ true
unfolding find_command all_hold
find_command-holds name [] c h a = cc
find_command-holds name (d ∷ cs) c h a = elim (Bool-cases (bytes_eq d.name name)) [
  | inl e ↦
      let same : d ≡ c = ground (arith, rw e at h) in
      let first : entry_holds d ≡ true = ground arith in
      subst (λ x. entry_holds x ≡ true) same first
  | inr e ↦ find_command-holds name cs c (rw e at h) (ground arith)
]

entry-holds : (name : Bytes) (c : CmdInfo) → get_cmd_info name ≡ some c → entry_holds c ≡ true
unfolding get_cmd_info
entry-holds name c h = find_command-holds name cmd_table c h table_holds

-- No command of the table is both a read, which may go to a replica, and a write.
pub get_cmd_info_exclusive :
    (name : Bytes) (c : CmdInfo)
    → get_cmd_info name ≡ some c
    → has_flag c flag_read ≡ true
    → has_flag c flag_write ≡ false
unfolding entry_holds
get_cmd_info_exclusive name c h r = ground (arith, entry-holds name c h)

get_elem?-lt :
    (i : ℕ) (args : List Bytes) → i < length args → (a : Bytes) × (get_elem? args i ≡ some a)
get_elem?-lt i [] h = absurd (omega arith)
get_elem?-lt zero (a ∷ args) h = (a, refl)
get_elem?-lt (suc i) (a ∷ args) h = get_elem?-lt i args (omega arith)

-- The loop of `GetKeys` ends, and stays within the arguments.
keys_from-ok :
    (f i last step : ℕ) (args : List Bytes)
    → length args + 2 < half_word
    → last < length args
    → 0 < step
    → step ≤ 2
    → i < half_word
    → last < i + f
    → (ks : List Bytes) × (keys_from f i last step args ≡ ok ks)
unfolding keys_from
keys_from-ok zero i last step args small l p q r b =
    let over : lt64 last i ≡ true = ground arith in ([], rw over refl)
keys_from-ok (suc f) i last step args small l p q r b = elim (Bool-cases (lt64 last i)) [
  | inl over ↦ ([], rw over refl)
  | inr on ↦
      let (a, e) = get_elem?-lt i args (ground arith) in
      let next : add64 i step ≡ i + step = ground arith in
      let (ks, h) =
        keys_from-ok f (add64 i step) last step args small l p q (ground arith) (ground arith) in
      (a ∷ ks, rw (on, arg_at, e, h) refl)
]

keys_between-ok :
    (first last step : ℕ) (args : List Bytes)
    → length args + 2 < half_word
    → 0 < step
    → step ≤ 2
    → first ≤ 3
    → (ks : List Bytes) × (keys_between first last step args ≡ ok ks)
keys_between-ok first last step args small p q r =
    elim (Bool-cases
      (not (lt64 first (length args)) || not (lt64 last (length args)) || lt64 last first)) [
        | inl none_there ↦ ([], rw none_there refl)
        | inr some_there ↦ rw some_there (
            keys_from-ok (length args) first last step args small (ground arith) p q (omega arith)
              (ground arith))
      ]

-- For every request of fewer than 2^63 - 2 arguments `GetKeys` returns a list of keys: no index is
-- out of range, and the loop ends.
pub get_keys_total :
    (req : Request) → length req.args + 2 < half_word → (ks : List Bytes) × (get_keys req ≡ ok ks)
unfolding get_keys entry_holds
get_keys_total req small = elim (Bool-cases (length req.args == 0)) [
  | inl e ↦ ([], rw e refl)
  | inr e ↦ elim (Option-cases (get_cmd_info req.cmd)) [
    | inl n ↦ ([], rw (e, n) refl)
    | inr (c, h) ↦ elim (Bool-cases (c.key_spec.first_key == 0)) [
      | inl z ↦ ([], rw (e, h, z) refl)
      | inr z ↦
          rw (e, h, z)
            (keys_between-ok c.key_spec.first_key
              (last_position c.key_spec.last_key (length req.args)) (step_or_one c.key_spec.step)
              req.args small (ground arith) (ground (arith, entry-holds req.cmd c h))
              (ground (arith, entry-holds req.cmd c h)))
    ]
  ]
]

arg_at-ok :
    (args : List Bytes) (i : ℕ) (a : Bytes) → arg_at args i ≡ ok a → get_elem? args i ≡ some a
arg_at-ok args i a h = elim (Option-cases (get_elem? args i)) [
  | inl e ↦ cc (rw (arg_at, e) at h)
  | inr (b, e) ↦ e ∙ some_of (rw (arg_at, e) at h)
]
  where
    some_of : {b : Bytes} → ok b ≡ ok a → some b ≡ some a
    some_of e = cc

keys_from-head :
    (f i last step : ℕ) (args : List Bytes) (k : Bytes) (ks : List Bytes)
    → keys_from f i last step args ≡ ok (k ∷ ks)
    → get_elem? args i ≡ some k
unfolding keys_from
keys_from-head zero i last step args k ks h = elim (Bool-cases (lt64 last i)) [
  | inl over ↦ cc (rw over at h)
  | inr on ↦ cc (rw on at h)
]
keys_from-head (suc f) i last step args k ks h = elim (Bool-cases (lt64 last i)) [
  | inl over ↦ cc (rw over at h)
  | inr on ↦
      let (a, p, q) = >>=-eq-ok (arg_at args i) _ (rw on at h) in
      let (rest, p', q') = >>=-eq-ok (keys_from f (add64 i step) last step args) _ q in
      let same : a ≡ k = ground arith in arg_at-ok args i a p ∙ ap some same
]

keys_between-head :
    (first last step : ℕ) (args : List Bytes) (k : Bytes) (ks : List Bytes)
    → keys_between first last step args ≡ ok (k ∷ ks)
    → (get_elem? args first ≡ some k) × (lt64 first (length args) ≡ true)
keys_between-head first last step args k ks h =
    elim (Bool-cases
      (not (lt64 first (length args)) || not (lt64 last (length args)) || lt64 last first)) [
        | inl none_there ↦ cc (rw none_there at h)
        | inr some_there ↦ (
          keys_from-head (length args) first last step args k ks (rw some_there at h),
          ground arith,
        )
      ]

-- The first key that `GetKeys` returns is that of `GetFirstKeyFromRequest`, by whose slot a command
-- is sent to its node.
pub get_keys-first :
    (req : Request) (k : Bytes) (ks : List Bytes)
    → get_keys req ≡ ok (k ∷ ks)
    → get_first_key_from_request req ≡ some k
unfolding get_keys get_first_key_from_request entry_holds
get_keys-first req k ks h = elim (Bool-cases (length req.args == 0)) [
  | inl e ↦ cc (rw e at h)
  | inr e ↦ elim (Option-cases (get_cmd_info req.cmd)) [
    | inl n ↦ cc (rw (e, n) at h)
    | inr (c, g) ↦ elim (Bool-cases (c.key_spec.first_key == 0)) [
      | inl z ↦ cc (rw (e, g, z) at h)
      | inr z ↦
          let (at_first, inside) =
            keys_between-head c.key_spec.first_key
              (last_position c.key_spec.last_key (length req.args)) (step_or_one c.key_spec.step)
              req.args k ks (rw (e, g, z) at h) in
          let after : lt64 0 c.key_spec.first_key ≡ true =
            ground (arith, entry-holds req.cmd c g) in
          rw (e, g, after, inside) at_first
    ]
  ]
]

-- ===== src/Router/Merge/Laws.antt =====
-- What the merges answer.
use pluster.Prelude.{
  ◌≡◌, inl, inr, refl, sym, ap, subst, ◌∙◌, Bool, true, false, ◌||◌, List, [], ◌∷◌, ◌++◌, Bytes,
  bytes_eq, bytes_eq_iff, Bool-cases,
}
use pluster.Proto.Value.{
  Value, simple_string, error, integer, bulk_string, nil_bulk_string, array, nil_array, nil_pointer,
  Values, nil, cons, is_error,
}
use pluster.Router.{Result, done, failed}
use pluster.Router.Scan.{str_of}
use pluster.Router.Merge.{append_all, was_seen, merge_pairs, merge_config_get}

-- The names in an answer of CONFIG GET, which alternate with values.
abbrev pub names : Values → List Bytes
names nil = []
names (cons k nil) = []
names (cons k (cons v vs)) = str_of k ∷ names vs

-- No name stands twice.
abbrev pub NoRepeat : List Bytes → Type 0
NoRepeat [] = Unit {0}
NoRepeat (n ∷ ns) = (was_seen n ns ≡ false) × NoRepeat ns

-- Pairs are whole.
abbrev Even : Values → Type 0
Even nil = Unit {0}
Even (cons k nil) = ⊥
Even (cons k (cons v vs)) = Even vs

-- The two lists of the loop tell of the same names.
abbrev Tells : List Bytes → Values → Type 0
Tells seen merged = (n : Bytes) → was_seen n seen ≡ was_seen n (names merged)

was_seen-append :
    (n : Bytes) (xs ys : List Bytes) → was_seen n (xs ++ ys) ≡ (was_seen n xs || was_seen n ys)
unfolding was_seen
was_seen-append n [] ys = refl
was_seen-append n (x ∷ xs) ys = elim (Bool-cases (bytes_eq x n)) [
  | inl e ↦ rw e refl
  | inr e ↦ rw e (was_seen-append n xs ys)
]

names-append :
    (vs : Values) (k v : Value)
    → Even vs
    → names (append_all vs (cons k (cons v nil))) ≡ names vs ++ str_of k ∷ []
names-append nil k v e = refl
names-append (cons a nil) k v e = absurd e
names-append (cons a (cons b vs)) k v e = ap (λ t. str_of a ∷ t) (names-append vs k v e)

Even-append : (vs : Values) (k v : Value) → Even vs → Even (append_all vs (cons k (cons v nil)))
Even-append nil k v e = tt
Even-append (cons a nil) k v e = absurd e
Even-append (cons a (cons b vs)) k v e = Even-append vs k v e

bytes_eq_sym : (a b : Bytes) → bytes_eq a b ≡ false → bytes_eq b a ≡ false
bytes_eq_sym a b h = elim (Bool-cases (bytes_eq b a)) [
  | inl e ↦
      let same : bytes_eq a b ≡ true = (bytes_eq_iff a b).1 (sym ((bytes_eq_iff b a).0 e)) in cc
  | inr e ↦ e
]

NoRepeat-append :
    (ns : List Bytes) (n : Bytes) → NoRepeat ns → was_seen n ns ≡ false → NoRepeat (ns ++ n ∷ [])
unfolding was_seen
NoRepeat-append [] n r h = (refl, tt)
NoRepeat-append (x ∷ ns) n r h = elim (Bool-cases (bytes_eq x n)) [
  | inl e ↦ let no : true ≡ false = rw e at h in cc
  | inr e ↦
      let h' : was_seen n ns ≡ false = rw e at h in
      (
        was_seen-append x ns (n ∷ []) ∙ rw (r.0, bytes_eq_sym x n e) refl,
        NoRepeat-append ns n r.1 h',
      )
]

-- The invariant of the loops of `mergeConfigGet`.
abbrev Merged : List Bytes × Values → Type 0
Merged s = Tells s.0 s.1 × Even s.1 × NoRepeat (names s.1)

Tells-append :
    (seen : List Bytes) (merged : Values) (k v : Value)
    → Even merged
    → Tells seen merged
    → Tells (str_of k ∷ seen) (append_all merged (cons k (cons v nil)))
unfolding was_seen
Tells-append seen merged k v e t n =
    rw (names-append merged k v e, was_seen-append n (names merged) (str_of k ∷ []), sym (t n))
      (either (bytes_eq (str_of k) n) (was_seen n seen))
  where
    either : (a b : Bool) → (a || b) ≡ (b || (a || false))
    either true true = refl
    either true false = refl
    either false true = refl
    either false false = refl

merge_pairs-Merged :
    (seen : List Bytes) (merged more : Values)
    → Merged (seen, merged)
    → Merged (merge_pairs seen merged more)
merge_pairs-Merged seen merged nil m = m
merge_pairs-Merged seen merged (cons k nil) m = m
merge_pairs-Merged seen merged (cons k (cons v more)) m =
    elim (Bool-cases (was_seen (str_of k) seen)) [
      | inl e ↦ rw e (merge_pairs-Merged seen merged more m)
      | inr e ↦ rw e (
          merge_pairs-Merged (str_of k ∷ seen) (append_all merged (cons k (cons v nil))) more (
            Tells-append seen merged k v m.1 m.0,
            Even-append merged k v m.1,
            subst NoRepeat (sym (names-append merged k v m.1))
                (NoRepeat-append (names merged) (str_of k) m.2 (sym (m.0 (str_of k)) ∙ e)),
          ))
    ]

-- A result of the merge is an error, or an array in which no name stands twice.
abbrev Unrepeated : Result Value → Type 0
Unrepeated (done (array vs)) = NoRepeat (names vs)
Unrepeated r = Unit {0}

merge_config_get_from :
    (seen : List Bytes) (merged : Values) (rs : List (Result Value))
    → Merged (seen, merged)
    → Unrepeated (merge_config_get seen merged rs)
unfolding merge_config_get is_error
merge_config_get_from seen merged [] m = m.2
merge_config_get_from seen merged (failed e ∷ rs) m = tt
merge_config_get_from seen merged (done (error msg) ∷ rs) m = tt
merge_config_get_from seen merged (done (simple_string str) ∷ rs) m =
    merge_config_get_from seen merged rs m
merge_config_get_from seen merged (done (integer n) ∷ rs) m = merge_config_get_from seen merged rs m
merge_config_get_from seen merged (done (bulk_string str) ∷ rs) m =
    merge_config_get_from seen merged rs m
merge_config_get_from seen merged (done nil_bulk_string ∷ rs) m =
    merge_config_get_from seen merged rs m
merge_config_get_from seen merged (done nil_array ∷ rs) m = merge_config_get_from seen merged rs m
merge_config_get_from seen merged (done nil_pointer ∷ rs) m = merge_config_get_from seen merged rs m
merge_config_get_from seen merged (done (array vs) ∷ rs) m =
    merge_config_get_from (merge_pairs seen merged vs).0 (merge_pairs seen merged vs).1 rs
      (merge_pairs-Merged seen merged vs m)

-- Where `mergeConfigGet` answers with an array, no name stands in it twice, whatever the masters
-- have answered.
pub merge_config_get-NoRepeat :
    (rs : List (Result Value)) (vs : Values)
    → merge_config_get [] nil rs ≡ done (array vs)
    → NoRepeat (names vs)
merge_config_get-NoRepeat rs vs h =
    subst Unrepeated h (merge_config_get_from [] nil rs ((λ n. refl), tt, tt))

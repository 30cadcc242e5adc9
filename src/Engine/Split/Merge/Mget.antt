-- ===== src/Engine/Split/Merge/Mget.antt =====
-- The merge of MGET: replies placed at the indices of their keys.
use pluster.Prelude.{
  ℕ, zero, suc, ◌<◌, ◌≡◌, ◌⊎◌, inl, inr, refl, sym, ◌∙◌, ap, Option, some, List, [], ◌∷◌, ◌++◌, map,
  append-nil, arith, Bytes, All, length, length-map, get_elem?, set, ◌==◌, ==_iff, Bool-cases,
}
use pluster.Prelude.Index.{
  length-set, set_same, set_other, get_elem?-lt, get_elem?-map, list_ext, In,
}
use pluster.Proto.Outcome.{ok}
use pluster.Proto.Int64.{half_word, append_int}
use pluster.Proto.Value.{Value, array, Values, nil, cons, count_values}
use pluster.Proto.Encode.{crlf, encode_value, append_value, append_values}
use pluster.Proto.Encode.Render.{IsEncodable, append_value-render, encode_value-render}
use pluster.Proto.Encode.RoundTrip.{parse_value-whole}
use pluster.Engine.Split.{SlotGroup}
use pluster.Engine.Split.Merge.{
  parse_sub, place, place_reply, mget_from, merge_mget, no_results, finish_mget, append_results,
}

-- The values that a function gives for a list of keys.
abbrev pub values_at : (Bytes → Value) → List Bytes → Values
values_at store [] = nil
values_at store (k ∷ ks) = cons (store k) (values_at store ks)

pub count-values_at :
    (store : Bytes → Value) (ks : List Bytes) → count_values (values_at store ks) ≡ length ks
count-values_at store [] = refl
count-values_at store (k ∷ ks) = ap suc (count-values_at store ks)

-- The results that the merge is to end with.
abbrev pub encoded : (Bytes → Value) → Bytes → Option Bytes
encoded store k = some (encode_value (store k))

abbrev pub target : (Bytes → Value) → List Bytes → List (Option Bytes)
target store keys = map (encoded store) keys

-- The indices of a group are those of its keys.
abbrev pub Indexes : List Bytes → List ℕ → List Bytes → Type 0
Indexes keys [] [] = Unit {0}
Indexes keys (i ∷ is) (k ∷ ks) = (get_elem? keys i ≡ some k) × Indexes keys is ks
Indexes keys _ _ = ⊥

-- An index is that of some key of some group.
abbrev pub Covered : ℕ → List SlotGroup → Type 0
Covered j [] = ⊥
Covered j (p ∷ ps) = In j p.indices ⊎ Covered j ps

module _ (store : Bytes → Value) (keys : List Bytes) where
  abbrev Done : List (Option Bytes) → ℕ → Type 0
  Done results j = get_elem? results j ≡ get_elem? (target store keys) j

  length-place :
      (is : List ℕ) (vs : Values) (results : List (Option Bytes))
      → length (place is vs results) ≡ length results
  unfolding place
  length-place [] vs results = refl
  length-place (i ∷ is) nil results = refl
  length-place (i ∷ is) (cons v vs) results =
      length-place is vs (set results i (some (encode_value v)))
      ∙ length-set results i (some (encode_value v))

  -- A reply at its index, and one elsewhere.
  set-Done :
      (results : List (Option Bytes)) (i : ℕ) (k : Bytes)
      → length results ≡ length keys
      → get_elem? keys i ≡ some k
      → Done (set results i (encoded store k)) i
  set-Done results i k l e =
      set_same results i (encoded store k) (omega (arith, l, get_elem?-lt keys i k e))
      ∙ sym (get_elem?-map (encoded store) keys i k e)

  set_keeps :
      (results : List (Option Bytes)) (i j : ℕ) (k : Bytes)
      → length results ≡ length keys
      → get_elem? keys i ≡ some k
      → Done results j
      → Done (set results i (encoded store k)) j
  set_keeps results i j k l e d = elim (Bool-cases (j == i)) [
    | inl same ↦ let p : j ≡ i = (==_iff j i).0 same in rw p (set-Done results i k l e)
    | inr differ ↦ set_other results i j (encoded store k) (λ p. ground (arith, differ, p)) ∙ d
  ]

  place_keeps :
      (is : List ℕ) (ks : List Bytes) (results : List (Option Bytes)) (j : ℕ)
      → Indexes keys is ks
      → length results ≡ length keys
      → Done results j
      → Done (place is (values_at store ks) results) j
  unfolding place
  place_keeps [] [] results j x l d = d
  place_keeps [] (k ∷ ks) results j x l d = absurd x
  place_keeps (i ∷ is) [] results j x l d = absurd x
  place_keeps (i ∷ is) (k ∷ ks) results j (e, x) l d =
      place_keeps is ks (set results i (encoded store k)) j x
        (length-set results i (encoded store k) ∙ l) (set_keeps results i j k l e d)

  place_reaches :
      (is : List ℕ) (ks : List Bytes) (results : List (Option Bytes)) (j : ℕ)
      → Indexes keys is ks
      → length results ≡ length keys
      → In j is
      → Done (place is (values_at store ks) results) j
  unfolding place
  place_reaches [] ks results j x l h = absurd h
  place_reaches (i ∷ is) [] results j x l h = absurd x
  place_reaches (i ∷ is) (k ∷ ks) results j (e, x) l (inl p) =
      place_keeps is ks (set results i (encoded store k)) j x
        (length-set results i (encoded store k) ∙ l) (rw p (set-Done results i k l e))
  place_reaches (i ∷ is) (k ∷ ks) results j (e, x) l (inr h) =
      place_reaches is ks (set results i (encoded store k)) j x
        (length-set results i (encoded store k) ∙ l) h

  -- All groups: their indices, with their keys.
  abbrev pub AllIndex : List SlotGroup → Type 0
  AllIndex = All (λ p. Indexes keys p.indices p.keys)

  abbrev place_all : List SlotGroup → List (Option Bytes) → List (Option Bytes)
  place_all [] results = results
  place_all (p ∷ ps) results = place_all ps (place p.indices (values_at store p.keys) results)

  length-place_all :
      (ps : List SlotGroup) (results : List (Option Bytes))
      → length (place_all ps results) ≡ length results
  length-place_all [] results = refl
  length-place_all (p ∷ ps) results =
      length-place_all ps (place p.indices (values_at store p.keys) results)
      ∙ length-place p.indices (values_at store p.keys) results

  place_all_keeps :
      (ps : List SlotGroup) (results : List (Option Bytes)) (j : ℕ)
      → AllIndex ps
      → length results ≡ length keys
      → Done results j
      → Done (place_all ps results) j
  place_all_keeps [] results j x l d = d
  place_all_keeps (p ∷ ps) results j x l d =
      place_all_keeps ps (place p.indices (values_at store p.keys) results) j x.1
        (length-place p.indices (values_at store p.keys) results ∙ l)
        (place_keeps p.indices p.keys results j x.0 l d)

  place_all_reaches :
      (ps : List SlotGroup) (results : List (Option Bytes)) (j : ℕ)
      → AllIndex ps
      → length results ≡ length keys
      → Covered j ps
      → Done (place_all ps results) j
  place_all_reaches [] results j x l h = absurd h
  place_all_reaches (p ∷ ps) results j x l (inl h) =
      place_all_keeps ps (place p.indices (values_at store p.keys) results) j x.1
        (length-place p.indices (values_at store p.keys) results ∙ l)
        (place_reaches p.indices p.keys results j x.0 l h)
  place_all_reaches (p ∷ ps) results j x l (inr h) =
      place_all_reaches ps (place p.indices (values_at store p.keys) results) j x.1
        (length-place p.indices (values_at store p.keys) results ∙ l) h

  length-no_results : (n : ℕ) → length (no_results n) ≡ n
  unfolding no_results
  length-no_results zero = refl
  length-no_results (suc n) = ap suc (length-no_results n)

  place_all-target :
      (ps : List SlotGroup)
      → AllIndex ps
      → ((j : ℕ) → j < length keys → Covered j ps)
      → place_all ps (no_results (length keys)) ≡ target store keys
  place_all-target ps x c =
      let l = length-no_results (length keys) in
      let n : length (place_all ps (no_results (length keys))) ≡ length keys =
        length-place_all ps (no_results (length keys)) ∙ l in
      list_ext (place_all ps (no_results (length keys))) (target store keys)
        (n ∙ sym (length-map (encoded store) keys))
        (λ j b. place_all_reaches ps (no_results (length keys)) j x l (c j (omega (arith, n, b))))

  -- What a node answers to a part, and that it is read back whole.
  abbrev pub reply : SlotGroup → Bytes
  reply p = encode_value (array (values_at store p.keys))

  abbrev pub Readable : List SlotGroup → Type 0
  Readable =
      All (λ p. IsEncodable (array (values_at store p.keys)) × (length (reply p) < half_word))

  mget_from-replies :
      (total : ℕ) (ps : List SlotGroup) (results : List (Option Bytes))
      → Readable ps
      → mget_from total (map (λ (p : SlotGroup). p.indices) ps) (map reply ps) results
        ≡ ok (finish_mget total (place_all ps results))
  unfolding mget_from parse_sub place_reply
  mget_from-replies total [] results r = refl
  mget_from-replies total (p ∷ ps) results r =
      rw (mget_from, parse_value-whole (array (values_at store p.keys)) r.0.0 r.0.1)
        (mget_from-replies total ps (place p.indices (values_at store p.keys) results) r.1)

append_value-encode : (b : Bytes) (v : Value) → append_value b v ≡ b ++ encode_value v
append_value-encode b v =
    sym (append-nil (append_value b v))
    ∙ append_value-render b [] v
    ∙ ap (λ t. b ++ t) (sym (encode_value-render v []) ∙ append-nil (encode_value v))

append_results-target :
    (store : Bytes → Value) (b : Bytes) (keys : List Bytes)
    → append_results b (target store keys) ≡ append_values b (values_at store keys)
unfolding append_results append_value
append_results-target store b [] = refl
append_results-target store b (k ∷ ks) =
    append_results-target store (b ++ encode_value (store k)) ks
    ∙ ap (λ t. append_values t (values_at store ks)) (sym (append_value-encode b (store k)))

finish_mget-target :
    (store : Bytes → Value) (keys : List Bytes)
    → finish_mget (length keys) (target store keys) ≡ encode_value (array (values_at store keys))
unfolding finish_mget encode_value append_value
finish_mget-target store keys =
    append_results-target store (append_int (b'*' ∷ []) (length keys) ++ crlf) keys
    ∙ ap (λ n. append_values (append_int (b'*' ∷ []) n ++ crlf) (values_at store keys))
        (sym (count-values_at store keys))

pub merge_mget-replies :
    (store : Bytes → Value) (keys : List Bytes) (ps : List SlotGroup)
    → AllIndex store keys ps
    → ((j : ℕ) → j < length keys → Covered j ps)
    → Readable store keys ps
    → merge_mget (length keys) (map (λ (p : SlotGroup). p.indices) ps) (map (reply store keys) ps)
      ≡ ok (encode_value (array (values_at store keys)))
unfolding merge_mget
merge_mget-replies store keys ps x c r =
    mget_from-replies store keys (length keys) ps (no_results (length keys)) r
    ∙ ap (λ t. ok (finish_mget (length keys) t)) (place_all-target store keys ps x c)
    ∙ ap ok (finish_mget-target store keys)

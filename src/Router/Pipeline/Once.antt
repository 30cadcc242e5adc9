-- ===== src/Router/Pipeline/Once.antt =====
-- Every request of a pipeline gets one result.
use pluster.Prelude.{
  ℕ, zero, suc, ◌+◌, ◌<◌, ◌≡◌, refl, ◌∙◌, ap, Bool, true, false, ◌&&◌, Option, none, some, List, [],
  ◌∷◌, ◌++◌, leb, ltb, ◌==◌, ==_iff, if◌then◌else◌, bytes_eq, length, set, get_elem?, get_or,
  Bool-cases, inl, inr, arith,
}
use pluster.Prelude.Index.{length-set, set_same, set_other}
use pluster.Proto.Value.{Value}
use pluster.Proto.Request.{Request}
use pluster.Router.{State, Backend}
use pluster.Router.Keys.{Part, nil_pointers}
use pluster.Router.Execute.{execute}
use pluster.Router.Pipeline.Batch.{
  BatchItem, NodeBatch, IndexWrites, exec_batch_on_node, writes_of, run_batches,
}
use pluster.Router.Pipeline.{
  Class, refuse, complex, simple, classify_args, classify_requests, refusals, complex_idxs,
  simple_items, add_item, by_addr, write_all, empty_request, run_complex, pipeline_writes,
  exec_pipeline,
}
use pluster.Router.Pipeline.Lengths.{exec_batch_on_node-length}

-- How often an index is written, or stands in a list.
abbrev one_if : Bool → ℕ
one_if true = 1
one_if false = 0

unfoldable pub count_writes : ℕ → IndexWrites → ℕ
count_writes j [] = 0
count_writes j ((i, v) ∷ ws) = one_if (i == j) + count_writes j ws

unfoldable count_idxs : ℕ → List ℕ → ℕ
count_idxs j [] = 0
count_idxs j (i ∷ is) = one_if (i == j) + count_idxs j is

unfoldable count_items : ℕ → List BatchItem → ℕ
count_items j [] = 0
count_items j (item ∷ items) = one_if (item.idx == j) + count_items j items

unfoldable pub count_batches : ℕ → List NodeBatch → ℕ
unfolding count_items
count_batches j [] = 0
count_batches j ((addr, items) ∷ bs) = count_items j items + count_batches j bs

count_writes-append :
    (j : ℕ) (ws us : IndexWrites)
    → count_writes j (ws ++ us) ≡ count_writes j ws + count_writes j us
unfolding count_writes
count_writes-append j [] us = omega arith
count_writes-append j ((i, v) ∷ ws) us = omega (arith, count_writes-append j ws us)

count_items-append :
    (j : ℕ) (xs ys : List BatchItem)
    → count_items j (xs ++ ys) ≡ count_items j xs + count_items j ys
unfolding count_items
count_items-append j [] ys = omega arith
count_items-append j (x ∷ xs) ys = omega (arith, count_items-append j xs ys)

-- The three classes share the indices out.
abbrev is_between : ℕ → ℕ → ℕ → Bool
is_between i j n = leb i j && ltb j (i + n)

one_if-step :
    (i j n : ℕ)
    → one_if (is_between i j (suc n)) ≡ one_if (i == j) + one_if (is_between (suc i) j n)
one_if-step i j n = ground arith

classes-share :
    (i j : ℕ) (reqs : List Request) (ks : List Class)
    → length ks ≡ length reqs
    → count_writes j (refusals i ks)
        + count_idxs j (complex_idxs i ks)
        + count_items j (simple_items i reqs ks)
      ≡ one_if (is_between i j (length reqs))
unfolding refusals complex_idxs simple_items count_writes count_idxs count_items
classes-share i j [] [] h = ground arith
classes-share i j [] (k ∷ ks) h = absurd (omega arith)
classes-share i j (req ∷ reqs) [] h = absurd (omega arith)
classes-share i j (req ∷ reqs) (refuse v ∷ ks) h =
    omega (arith, one_if-step i j (length reqs), classes-share (suc i) j reqs ks (omega arith))
classes-share i j (req ∷ reqs) (complex ∷ ks) h =
    omega (arith, one_if-step i j (length reqs), classes-share (suc i) j reqs ks (omega arith))
classes-share i j (req ∷ reqs) (simple addr slot ∷ ks) h =
    omega (arith, one_if-step i j (length reqs), classes-share (suc i) j reqs ks (omega arith))

-- The batches have the items, each once.
add_item-count :
    (j : ℕ) (item : BatchItem) (bs : List NodeBatch)
    → count_batches j (add_item item bs) ≡ one_if (item.idx == j) + count_batches j bs
unfolding count_batches add_item
add_item-count j item [] = omega arith
add_item-count j item ((addr, items) ∷ bs) = elim (Bool-cases (bytes_eq addr item.addr)) [
  | inl y ↦ rw y (omega (arith, count_items-append j items (item ∷ [])))
  | inr n ↦ rw n (omega (arith, add_item-count j item bs))
]

by_addr-count :
    (j : ℕ) (items : List BatchItem) (bs : List NodeBatch)
    → count_batches j (by_addr items bs) ≡ count_items j items + count_batches j bs
unfolding by_addr count_items
by_addr-count j [] bs = omega arith
by_addr-count j (item ∷ items) bs =
    omega (arith, by_addr-count j items (add_item item bs), add_item-count j item bs)

writes_of-count :
    (j : ℕ) (items : List BatchItem) (vs : List Value)
    → length vs ≡ length items
    → count_writes j (writes_of items vs) ≡ count_items j items
unfolding count_writes count_items
writes_of-count j [] vs h = refl
writes_of-count j (item ∷ items) [] h = absurd (omega arith)
writes_of-count j (item ∷ items) (v ∷ vs) h =
    omega (arith, writes_of-count j items vs (omega arith))

-- What the writes leave at an index.
unfoldable pub written : ℕ → IndexWrites → Option Value
written j [] = none
written j ((i, v) ∷ ws) = let rest = written j ws in if i == j then some v else rest

unwritten :
    (j : ℕ) (ws : IndexWrites) (vs : List Value)
    → count_writes j ws ≡ 0
    → get_elem? (write_all ws vs) j ≡ get_elem? vs j
unfolding count_writes write_all
unwritten j [] vs h = refl
unwritten j ((i, v) ∷ ws) vs h =
    unwritten j ws (set vs i v) (omega arith) ∙ set_other vs i j v (λ e. absurd (ground arith))

length-write_all : (ws : IndexWrites) (vs : List Value) → length (write_all ws vs) ≡ length vs
unfolding write_all
length-write_all [] vs = refl
length-write_all ((i, v) ∷ ws) vs = length-write_all ws (set vs i v) ∙ length-set vs i v

write_all-once :
    (j : ℕ) (ws : IndexWrites) (vs : List Value)
    → j < length vs
    → count_writes j ws ≡ 1
    → (v : Value) × (written j ws ≡ some v) × (get_elem? (write_all ws vs) j ≡ some v)
unfolding count_writes write_all written
write_all-once j [] vs l h = absurd (omega arith)
write_all-once j ((i, v) ∷ ws) vs l h = elim (Bool-cases (i == j)) [
  | inl y ↦
      let same : i ≡ j = (==_iff i j).0 y in
      (
        v,
        rw y refl,
        unwritten j ws (set vs i v) (ground arith)
            ∙ ap (λ n. get_elem? (set vs n v) j) same
            ∙ set_same vs j v l,
      )
  | inr n ↦
      let (u, left, found) =
        write_all-once j ws (set vs i v) (omega (arith, length-set vs i v)) (ground arith) in
      (u, rw n left, found)
]

classify_requests-length :
    {W : Type 0} (reqs : List Request) (s : State W)
    → length (classify_requests reqs s).1 ≡ length reqs
unfolding classify_requests
classify_requests-length [] s = refl
classify_requests-length (req ∷ reqs) s =
    ap suc (classify_requests-length reqs (classify_args req req.args s).0)

-- What runs on a backend.
module _ {W : Type 0} (b : Backend W) where
  run_batches-count :
      (j : ℕ) (bs : List NodeBatch) (s : State W)
      → count_writes j (run_batches b bs s).1 ≡ count_batches j bs
  unfolding run_batches count_writes count_batches
  run_batches-count j [] s = refl
  run_batches-count j ((addr, items) ∷ bs) s =
      let (s', vs) = exec_batch_on_node b addr items s in
      omega (
        arith,
        count_writes-append j (writes_of items vs) (run_batches b bs s').1,
        writes_of-count j items vs (exec_batch_on_node-length b addr items s),
        run_batches-count j bs s',
      )

  run_complex-count :
      (order : List Part → List Part) (batch_order : List NodeBatch → List NodeBatch) (j : ℕ)
      (reqs : List Request) (is : List ℕ) (s : State W)
      → count_writes j (run_complex b order batch_order reqs is s).1 ≡ count_idxs j is
  unfolding run_complex count_writes count_idxs
  run_complex-count order batch_order j reqs [] s = refl
  run_complex-count order batch_order j reqs (i ∷ is) s =
      ap (λ n. one_if (i == j) + n)
        (run_complex-count order batch_order j reqs is
          (execute b order (get_or reqs i empty_request) s).0)

length-nil_pointers : (n : ℕ) → length (nil_pointers n) ≡ n
length-nil_pointers zero = refl
length-nil_pointers (suc n) = ap suc (length-nil_pointers n)

-- The results of a pipeline: as many as requests, and for each index there is one write, the value of
-- which is the result.
pub record IsAnswered (n : ℕ) (ws : IndexWrites) (results : List Value) : Type 0 where
  pub length : length results ≡ n
  pub once : (j : ℕ) → j < n → count_writes j ws ≡ 1
  pub result :
      (j : ℕ) → j < n → (v : Value) × (written j ws ≡ some v) × (get_elem? results j ≡ some v)

-- Whatever the nodes answer, and whichever connections fail, `ExecPipeline` returns as many results as
-- there are requests, and writes each of them exactly once: at once where the request is refused, by
-- `Execute`, or by the batch of its node. What it returns for a request is what this one write has
-- put there. The order in which the batches run may be any that leaves none out and repeats none.
pub exec_pipeline-IsAnswered :
    {W : Type 0} (b : Backend W) (order : List Part → List Part)
    (batch_order : List NodeBatch → List NodeBatch) (reqs : List Request) (s : State W)
    → ((bs : List NodeBatch) (j : ℕ) → count_batches j (batch_order bs) ≡ count_batches j bs)
    → IsAnswered
        (length reqs)
        (pipeline_writes b order batch_order reqs s).1
        (exec_pipeline b order batch_order reqs s).1
unfolding exec_pipeline pipeline_writes count_batches
exec_pipeline-IsAnswered b order batch_order reqs s h =
    let (s1, ks) = classify_requests reqs s in
    let (s2, ws) = run_complex b order batch_order reqs (complex_idxs 0 ks) s1 in
    let bs = by_addr (simple_items 0 reqs ks) [] in
    let us = (run_batches b (batch_order bs) s2).1 in
    let all = refusals 0 ks ++ (ws ++ us) in
    let once : (j : ℕ) → j < length reqs → count_writes j all ≡ 1 = λ j l. ground (
      arith,
      count_writes-append j (refusals 0 ks) (ws ++ us),
      count_writes-append j ws us,
      run_complex-count b order batch_order j reqs (complex_idxs 0 ks) s1,
      run_batches-count b j (batch_order bs) s2,
      h bs j,
      by_addr-count j (simple_items 0 reqs ks) [],
      classes-share 0 j reqs ks (classify_requests-length reqs s),
    ) in
    let filled : length (nil_pointers (length reqs)) ≡ length reqs =
      length-nil_pointers (length reqs) in
    record {
      length = length-write_all all (nil_pointers (length reqs)) ∙ filled;
      once = once;
      result = λ j l. write_all-once j all (nil_pointers (length reqs)) (omega arith) (once j l);
    }

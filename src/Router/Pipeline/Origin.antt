-- ===== src/Router/Pipeline/Origin.antt =====
-- Where the result that `ExecPipeline` of pkg/router/router.go returns for a request comes from.
use pluster.Prelude.{ℕ, ◌+◌, ◌≡◌, some, List, get_elem?, get_or, All}
use pluster.Proto.Value.{Value}
use pluster.Proto.Request.{Request}
use pluster.Router.{State, Backend}
use pluster.Router.Keys.{Part}
use pluster.Router.Execute.{execute}
use pluster.Router.Pipeline.Batch.{BatchItem, NodeBatch, IndexWrites}
use pluster.Router.Pipeline.{Class, refuse, complex, simple, empty_request}
use pluster.Router.Pipeline.Values.{Came, ItemValue, Values}

-- Where a list stands in another, from an index on.
abbrev From {ℓ} : {A : Type ℓ} → List A → ℕ → List A → Type ℓ
From all i xs = (k : ℕ) → get_elem? all (i + k) ≡ get_elem? xs k

-- The batches of `xs` are among those of `ys`.
abbrev pub Among : List NodeBatch → List NodeBatch → Type 0
Among xs ys = All (λ (x : NodeBatch). (k : ℕ) × (get_elem? ys k ≡ some x)) xs

-- What all items of all batches have.
abbrev AllItems : (BatchItem → Type 0) → List NodeBatch → Type 0
AllItems P bs = All (λ (nb : NodeBatch). All P nb.1) bs

module _ {W : Type 0} (b : Backend W) (order : List Part → List Part) (reqs : List Request)
    (ks : List Class) where
  -- The items of the requests of the third class.
  abbrev IsItem : BatchItem → Type 0
  IsItem item =
      (get_elem? reqs item.idx ≡ some item.req)
      × (get_elem? ks item.idx ≡ some (simple item.addr item.slot))

  -- Where the result at the index `j` comes from, by the class of the request.
  pub data Origin (j : ℕ) (v : Value) : Type 0 where
    of_refusal : get_elem? ks j ≡ some (refuse v) → Origin j v
    of_execute :
        (s : State W)
        → get_elem? ks j ≡ some complex
        → Came (execute b order (get_or reqs j empty_request) s).1 v
        → Origin j v
    of_batch :
        (batch : List BatchItem) (item : BatchItem)
        → get_elem? reqs j ≡ some item.req
        → get_elem? ks j ≡ some (simple item.addr item.slot)
        → ItemValue b batch item v
        → Origin j v

  abbrev Origins : IndexWrites → Type 0
  Origins ws = All (λ (w : ℕ × Value). Origin w.0 w.1) ws

  abbrev IsComplex : ℕ → Type 0
  IsComplex j = get_elem? ks j ≡ some complex

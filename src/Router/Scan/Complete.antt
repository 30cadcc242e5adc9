-- ===== src/Router/Scan/Complete.antt =====
-- A scan through the proxy reaches every master and ends.
use pluster.Prelude.{
  ℕ, zero, suc, ◌+◌, ◌-◌, ◌*◌, ◌/◌, ◌%◌, ◌<◌, ◌≤◌, ◌≡◌, ◌⊎◌, inl, inr, refl, sym, ap, ◌∙◌, true,
  false, Option, none, some, List, [], ◌++◌, append-nil, append_assoc, arith, leb, ◌==◌, Bytes,
  Bool-cases, Option-cases, if◌then◌else◌,
}
use mathlib.Core.Option
use pluster.Prelude.Index.{some_inj}
use pluster.Proto.Int64.{word}
use pluster.Router.Scan.{scan_target, next_cursor, scan_node_indexes}

-- A cursor of a master that the shift keeps.
abbrev pub cursor_bound : ℕ
cursor_bound = 281474976710656

abbrev pub joined : ℕ → ℕ → ℕ
joined node_idx real = real * scan_node_indexes + node_idx

scan_target-joined :
    (masters node_idx real : ℕ)
    → node_idx < masters
    → masters ≤ scan_node_indexes
    → scan_target masters (joined node_idx real) ≡ (node_idx, real)
unfolding scan_target
scan_target-joined masters node_idx real h n =
    let e : joined node_idx real % scan_node_indexes ≡ node_idx = omega arith in
    let f : joined node_idx real / scan_node_indexes ≡ real = omega arith in
    let g : leb masters node_idx ≡ false = ground arith in rw (e, f, g) refl

next_cursor-joined :
    (masters node_idx returned : ℕ)
    → (returned == 0) ≡ false
    → returned < cursor_bound
    → next_cursor masters node_idx returned ≡ joined node_idx returned
unfolding next_cursor
next_cursor-joined masters node_idx returned z h =
    let e : returned * scan_node_indexes % word ≡ returned * scan_node_indexes = omega arith in
    rw (z, e) refl

-- From the cursor that the proxy has given for a master, the proxy goes on with that master at the
-- cursor that the master gave: it loses nothing, if there are at most 2^16 masters, and the master's
-- cursor is not 0 and below 2^48.
pub scan_target-next_cursor :
    (masters node_idx returned : ℕ)
    → node_idx < masters
    → masters ≤ scan_node_indexes
    → (returned == 0) ≡ false
    → returned < cursor_bound
    → scan_target masters (next_cursor masters node_idx returned) ≡ (node_idx, returned)
scan_target-next_cursor masters node_idx returned h n z l =
    ap (scan_target masters) (next_cursor-joined masters node_idx returned z l)
    ∙ scan_target-joined masters node_idx returned h n

-- What a client does with an answer: it ends at the cursor 0, and goes on at another.
abbrev pub go_on : ℕ × List Bytes → (ℕ → Option (List Bytes)) → Option (List Bytes)
go_on (next, items) again =
    let rest = again next in if next == 0 then some items else Option.map (λ r. items ++ r) rest

-- What a node answers to SCAN at a cursor: the next cursor, 0 at the end, and some keys.
module _ (node : ℕ → ℕ → ℕ × List Bytes) where
  -- A client that scans one node until it answers with 0, at most so many times.
  abbrev pub node_scan : ℕ → ℕ → ℕ → Option (List Bytes)
  node_scan zero node_idx cursor = none
  node_scan (suc f) node_idx cursor = go_on (node node_idx cursor) (node_scan f node_idx)

  -- The answer through the proxy, by `scan_target` and `next_cursor`.
  abbrev pub proxied : ℕ → ℕ → ℕ × List Bytes
  proxied masters cursor =
      let (node_idx, real) = scan_target masters cursor in
      (next_cursor masters node_idx (node node_idx real).0, (node node_idx real).1)

  -- A client that scans through the proxy.
  abbrev pub client_scan : ℕ → ℕ → ℕ → Option (List Bytes)
  client_scan masters zero cursor = none
  client_scan masters (suc f) cursor = go_on (proxied masters cursor) (client_scan masters f)

  -- The keys of the masters from one on, each scanned alone.
  abbrev pub collected : (ℕ → List Bytes) → ℕ → ℕ → List Bytes
  collected keys node_idx zero = []
  collected keys node_idx (suc n) = keys node_idx ++ collected keys (node_idx + 1) n

  module _ (masters : ℕ) (few : masters ≤ scan_node_indexes)
      (small : (node_idx cursor : ℕ) → (node node_idx cursor).0 < cursor_bound) where
    -- The scan of the masters behind one, from the cursor that the proxy begins them with.
    abbrev Rest : ℕ → List Bytes → Type 0
    Rest node_idx rest =
        (node_idx + 1 < masters) × ((g : ℕ) × (client_scan masters g (node_idx + 1) ≡ some rest))
        ⊎ (node_idx + 1 ≡ masters) × (rest ≡ [])

    proxied-joined :
        (node_idx real : ℕ)
        → node_idx < masters
        → proxied masters (joined node_idx real)
          ≡ (next_cursor masters node_idx (node node_idx real).0, (node node_idx real).1)
    proxied-joined node_idx real h = rw (scan_target-joined masters node_idx real h few) refl

    -- A step of the client's scan, at the answer of the proxy.
    client_scan-last :
        (f cursor : ℕ) (next : ℕ) (items : List Bytes)
        → proxied masters cursor ≡ (next, items)
        → (next == 0) ≡ true
        → client_scan masters (suc f) cursor ≡ some items
    client_scan-last f cursor next items p z =
        ap (λ r. go_on r (client_scan masters f)) p ∙ rw z refl

    client_scan-more :
        (f cursor : ℕ) (next : ℕ) (items rest : List Bytes)
        → proxied masters cursor ≡ (next, items)
        → (next == 0) ≡ false
        → client_scan masters f next ≡ some rest
        → client_scan masters (suc f) cursor ≡ some (items ++ rest)
    client_scan-more f cursor next items rest p z h =
        ap (λ r. go_on r (client_scan masters f)) p ∙ rw (z, h) refl

    next-node :
        (node_idx : ℕ) → node_idx + 1 < masters → next_cursor masters node_idx 0 ≡ node_idx + 1
    unfolding next_cursor
    next-node node_idx h = ground arith

    next-end : (node_idx : ℕ) → node_idx + 1 ≡ masters → next_cursor masters node_idx 0 ≡ 0
    unfolding next_cursor
    next-end node_idx h = ground arith

    -- The master has answered with 0.
    node_done :
        (node_idx real : ℕ) (rest : List Bytes)
        → node_idx < masters
        → (node node_idx real).0 ≡ 0
        → Rest node_idx rest
        → (f : ℕ) × (client_scan masters f (joined node_idx real)
            ≡ some ((node node_idx real).1 ++ rest))
    node_done node_idx real rest h z (inl (l, (g, e))) =
        let items = (node node_idx real).1 in
        let next : next_cursor masters node_idx (node node_idx real).0 ≡ node_idx + 1 =
          rw z (next-node node_idx l) in
        (
          suc g,
          client_scan-more g (joined node_idx real) (node_idx + 1) items rest
              (proxied-joined node_idx real h ∙ ap (λ n. (n, items)) next) (ground arith) e,
        )
    node_done node_idx real rest h z (inr (l, e)) =
        let items = (node node_idx real).1 in
        let next : next_cursor masters node_idx (node node_idx real).0 ≡ 0 =
          rw z (next-end node_idx l) in
        (
          1,
          client_scan-last 0 (joined node_idx real) 0 items
                (proxied-joined node_idx real h ∙ ap (λ n. (n, items)) next) refl
              ∙ ap some (rw e (sym (append-nil items))),
        )

    client_scan-node :
        (f node_idx real : ℕ) (keys rest : List Bytes)
        → node_idx < masters
        → node_scan f node_idx real ≡ some keys
        → Rest node_idx rest
        → (g : ℕ) × (client_scan masters g (joined node_idx real) ≡ some (keys ++ rest))
    client_scan-node zero node_idx real keys rest h p r = cc
    client_scan-node (suc f) node_idx real keys rest h p r =
        let next = (node node_idx real).0 in
        let items = (node node_idx real).1 in
        elim (Bool-cases (next == 0)) [
          | inl z ↦
              let same : items ≡ keys = some_inj (rw z at p) in
              let (g, e) = node_done node_idx real rest h (ground (arith, z)) r in
              (g, e ∙ ap (λ t. some (t ++ rest)) same)
          | inr z ↦ elim (Option-cases (node_scan f node_idx next)) [
            | inl n ↦ let no : none ≡ some keys = rw (z, n) at p in cc
            | inr (more, n) ↦
                let same : items ++ more ≡ keys = some_inj (rw (z, n) at p) in
                let (g, e) = client_scan-node f node_idx next more rest h n r in
                let joins = next_cursor-joined masters node_idx next z (small node_idx real) in
                (
                  suc g,
                  client_scan-more g (joined node_idx real) (joined node_idx next) items
                        (more ++ rest) (proxied-joined node_idx real h ∙ ap (λ c. (c, items)) joins)
                        (ground (arith, z)) e
                      ∙ ap some (sym (append_assoc items more rest))
                      ∙ ap (λ t. some (t ++ rest)) same,
                )
          ]
        ]

    -- The first cursor of a master is its number.
    from_first :
        (g node_idx : ℕ)
        → client_scan masters g node_idx ≡ client_scan masters g (joined node_idx 0)
    from_first g node_idx = ap (client_scan masters g) (omega arith)

    -- From the first cursor of a master on, `n` masters before the end.
    client_scan-collected :
        (keys : ℕ → List Bytes) (n node_idx : ℕ)
        → ((i : ℕ) → i < masters → (f : ℕ) × (node_scan f i 0 ≡ some (keys i)))
        → node_idx + suc n ≡ masters
        → (g : ℕ) × (client_scan masters g node_idx ≡ some (collected keys node_idx (suc n)))
    client_scan-collected keys zero node_idx ends e =
        let (f, p) = ends node_idx (omega arith) in
        let (g, q) =
          client_scan-node f node_idx 0 (keys node_idx) [] (omega arith) p
            (inr (omega arith, refl)) in
        (g, from_first g node_idx ∙ q)
    client_scan-collected keys (suc n) node_idx ends e =
        let (f, p) = ends node_idx (omega arith) in
        let (g, q) = client_scan-collected keys n (node_idx + 1) ends (omega arith) in
        let (g', q') =
          client_scan-node f node_idx 0 (keys node_idx) (collected keys (node_idx + 1) (suc n))
            (omega arith) p (inl (omega arith, (g, q))) in
        (g', from_first g' node_idx ∙ q')

    -- A client that begins a scan with the cursor 0 and goes on with each cursor that it is given
    -- comes to the cursor 0 again after finitely many calls, and has then been given the keys of
    -- every master, those of the first one first: if each master, scanned alone from 0, comes to 0,
    -- there is a master and at most 2^16 of them, and the cursors of the masters are below 2^48.
    pub client_scan_complete :
        (keys : ℕ → List Bytes)
        → 0 < masters
        → ((i : ℕ) → i < masters → (f : ℕ) × (node_scan f i 0 ≡ some (keys i)))
        → (g : ℕ) × (client_scan masters g 0 ≡ some (collected keys 0 masters))
    client_scan_complete keys h ends =
        let e : suc (masters - 1) ≡ masters = omega arith in
        let (g, p) = client_scan-collected keys (masters - 1) 0 ends (omega arith) in
        (g, p ∙ ap (λ n. some (collected keys 0 n)) e)

-- ===== src/Router/Scan/Reply.antt =====
-- What a call of SCAN does, from the cursor of the client to the one that it is given.
use pluster.Proto.Int64.RoundTrip.{decimal-ne-nil}
use pluster.Prelude.{
  ℕ, zero, suc, ◌+◌, ◌-◌, ◌*◌, ◌/◌, ◌%◌, ◌<◌, ◌≡◌, refl, sym, ap, ◌∙◌, true, false, some, List, [],
  ◌∷◌, ◌++◌, append-nil, append_assoc, ◌≢◌, arith, ltb, leb, Bytes, length, set, get_or, Bool-cases,
  inl, inr,
}
use pluster.Proto.Int64.{word, decimal}
use pluster.Proto.Value.{Value, bulk_string, array, Values, nil, cons}
use pluster.Engine.Mux.Traffic.{atoi_digits}
use pluster.Cluster.{all_masters}
use pluster.Router.{done, State, Backend}
use pluster.Router.Node.{exec_on_node}
use pluster.Router.Scan.{
  parse_uint, format_uint, scan_target, next_cursor, scan_reply, scan_from, scan_masters,
  execute_scan, str_of, below_word,
}

abbrev pow10 : ℕ → ℕ
pow10 zero = 1
pow10 (suc f) = 10 * pow10 f

atoi_digits-digit :
    (m d : ℕ) (rest : Bytes)
    → d < 10
    → atoi_digits m ((b'0' + d) ∷ rest) ≡ atoi_digits (m * 10 + d) rest
unfolding atoi_digits
atoi_digits-digit m d rest h =
    let same : b'0' + d - b'0' ≡ d = omega arith in
    let low : leb b'0' (b'0' + d) ≡ true = ground arith in
    let high : leb (b'0' + d) b'9' ≡ true = ground arith in rw (atoi_digits, same, low, high) refl

atoi_digits-decimal :
    (f n : ℕ) (rest : Bytes)
    → n < pow10 f
    → atoi_digits 0 (decimal f n ++ rest) ≡ atoi_digits n rest
unfolding decimal
atoi_digits-decimal zero n rest h = let e : n ≡ 0 = omega arith in rw e refl
atoi_digits-decimal (suc f) n rest h = elim (Bool-cases (ltb n 10)) [
  | inl one ↦
      rw one
        (atoi_digits-digit 0 (n % 10) rest (omega arith) ∙ ap (λ m. atoi_digits m rest) (small one))
  | inr more ↦
      rw (more, append_assoc (decimal f (n / 10)) ((b'0' + n % 10) ∷ []) rest)
        (atoi_digits-decimal f (n / 10) _ (omega arith)
          ∙ atoi_digits-digit (n / 10) (n % 10) rest (omega arith)
          ∙ ap (λ m. atoi_digits m rest) (omega arith))
]
  where
    small : ltb n 10 ≡ true → 0 * 10 + n % 10 ≡ n
    small e = ground arith

pub atoi_digits-decimal_20 : (n : ℕ) → n < word → atoi_digits 0 (decimal 20 n) ≡ some n
atoi_digits-decimal_20 n h =
    ap (atoi_digits 0) (sym (append-nil (decimal 20 n)))
    ∙ atoi_digits-decimal 20 n [] (omega arith)
    ∙ unfold atoi_digits in refl

parse_uint-unfold : (xs : Bytes) → xs ≢ [] → parse_uint xs ≡ below_word (atoi_digits 0 xs)
unfolding parse_uint
parse_uint-unfold [] h = absurd (h refl)
parse_uint-unfold (c ∷ cs) h = refl

-- `ParseUint` reads every uint64 back from what `FormatUint` writes.
pub parse_uint-format_uint : (n : ℕ) → n < word → parse_uint (format_uint n) ≡ some n
unfolding format_uint
parse_uint-format_uint n h =
    let low : ltb n word ≡ true = ground arith in
    parse_uint-unfold (decimal 20 n) (decimal-ne-nil 19 n)
    ∙ ap below_word (atoi_digits-decimal_20 n h)
    ∙ rw low refl

module _ {W : Type 0} (b : Backend W) where
  scan_from-reply :
      (args masters : List Bytes) (cursor returned : ℕ) (items : Value) (more : Values)
      (s s' : State W)
      → exec_on_node b
          (get_or masters (scan_target (length masters) cursor).0 [])
          (set args 1 (format_uint (scan_target (length masters) cursor).1))
          false
          s
        ≡ (s', done (array (cons (bulk_string (format_uint returned)) (cons items more))))
      → returned < word
      → scan_from b args masters (some cursor) s ≡ (
        s',
        done (
            array (
              cons
                (bulk_string (
                  format_uint (
                    next_cursor (length masters) (scan_target (length masters) cursor).0 returned)))
                (cons items nil))),
      )
  unfolding scan_reply str_of
  scan_from-reply args masters cursor returned items more s s' h l =
      rw (h, parse_uint-format_uint returned l) refl

  -- A call of SCAN with a cursor of 64 bits asks the master that `scan_target` names, with the cursor
  -- that it names and the other arguments as they are; where that master answers with a cursor of 64
  -- bits and some items, the client is answered with the cursor of `next_cursor` and these items.
  pub execute_scan-reply :
      (name : Bytes) (args : List Bytes) (m : Bytes) (ms : List Bytes) (cursor returned : ℕ)
      (items : Value) (more : Values) (s s' : State W)
      → all_masters s.topo ≡ m ∷ ms
      → cursor < word
      → returned < word
      → exec_on_node b
          (get_or (m ∷ ms) (scan_target (length (m ∷ ms)) cursor).0 [])
          (name ∷ format_uint (scan_target (length (m ∷ ms)) cursor).1 ∷ args)
          false
          s
        ≡ (s', done (array (cons (bulk_string (format_uint returned)) (cons items more))))
      → execute_scan b (name ∷ format_uint cursor ∷ args) s ≡ (
        s',
        done (
            array (
              cons
                (bulk_string (
                  format_uint (
                    next_cursor
                      (length (m ∷ ms))
                      (scan_target (length (m ∷ ms)) cursor).0
                      returned)))
                (cons items nil))),
      )
  unfolding execute_scan
  execute_scan-reply name args m ms cursor returned items more s s' masters l l' h =
      let all = name ∷ format_uint cursor ∷ args in
      ap (λ t. scan_masters b all (format_uint cursor) t s) masters
      ∙ ap (λ c. scan_from b all (m ∷ ms) c s) (parse_uint-format_uint cursor l)
      ∙ scan_from-reply all (m ∷ ms) cursor returned items more s s' h l'

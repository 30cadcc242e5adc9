-- ===== src/Proto/Parse/Total.antt =====
-- `ParseValue` ends within the buffer, and the fuel never runs out.
use pluster.Prelude.{
  ℕ, zero, suc, ◌+◌, ◌≤◌, ◌<◌, ◌≡◌, ◌≢◌, [], ◌∷◌, arith, Bytes, ◌==◌, length, Bool-cases, inl, inr,
}
use pluster.Proto.Outcome.{Outcome, ok, stuck, ◌>>=◌, >>=-eq-ok, >>=-ne-stuck}
use pluster.Proto.Int64.{is_negative, parse_int_bytes}
use pluster.Proto.Value.{Value, Values}
use pluster.Proto.Line.{read_line, read_body, read_line-position, read_body-position}
use pluster.Proto.Parse.{
  parse_values, parse_inline_at, parse_bulk, parse_array, parse_typed, parse_value_at, parse_value,
  or_invalid,
}

abbrev Parser : Type 0
Parser = ℕ → Bytes → Outcome (Value × ℕ × Bytes)

-- From `pos` at `rest` to `e` at `after`: both lie in one buffer, and `e` is further on.
abbrev Advances : ℕ → Bytes → ℕ → Bytes → Type 0
Advances pos rest e after = (e + length after ≡ pos + length rest) × (pos < e)

abbrev ParserAdvances : Parser → Type 0
ParserAdvances parse =
    (pos : ℕ) (rest : Bytes) (v : Value) (e : ℕ) (after : Bytes)
    → parse pos rest ≡ ok (v, e, after)
    → Advances pos rest e after

-- A parser that reads a line first has advanced, whatever it does with the line.
module _ (pos : ℕ) (rest : Bytes) where
  line_first :
      (k : Bytes × ℕ × Bytes → Outcome (Value × ℕ × Bytes)) {r : Value × ℕ × Bytes}
      → (read_line pos rest >>= k) ≡ ok r
      → (l : Bytes × ℕ × Bytes) × Advances pos rest l.1 l.2 × (k l ≡ ok r)
  line_first k h =
      let ((line, e, after), p, q) = >>=-eq-ok (read_line pos rest) k h in
      ((line, e, after), read_line-position pos rest line after e p, q)

  -- What follows the line does not move further.
  abbrev Stays : (Bytes × ℕ × Bytes → Outcome (Value × ℕ × Bytes)) → Type 0
  Stays k =
      (l : Bytes × ℕ × Bytes) (v : Value) (e : ℕ) (after : Bytes)
      → k l ≡ ok (v, e, after)
      → (e ≡ l.1) × (after ≡ l.2)

  line-Advances :
      (k : Bytes × ℕ × Bytes → Outcome (Value × ℕ × Bytes))
      → Stays k
      → (v : Value) (e : ℕ) (after : Bytes) → (read_line pos rest >>= k) ≡ ok (v, e, after)
      → Advances pos rest e after
  line-Advances k stays v e after h =
      let (l, a, q) = line_first k h in ground (arith, stays l v e after q)

parse_inline_at-Advances :
    (pos : ℕ) (rest : Bytes) (v : Value) (e : ℕ) (after : Bytes)
    → parse_inline_at pos rest ≡ ok (v, e, after)
    → Advances pos rest e after
unfolding parse_inline_at
parse_inline_at-Advances pos rest v e after h =
    line-Advances pos rest _ (λ l v e after q. ground arith) v e after h

parse_bulk-Advances :
    (pos : ℕ) (rest : Bytes) (v : Value) (e : ℕ) (after : Bytes)
    → parse_bulk pos rest ≡ ok (v, e, after)
    → Advances pos rest e after
parse_bulk-Advances pos rest v e after h =
    let ((line, e1, after1), p, q) = >>=-eq-ok (read_line pos rest) _ h in
    let (n, p', q') = >>=-eq-ok (or_invalid (parse_int_bytes line)) _ q in
    elim (Bool-cases (is_negative n)) [
      | inl neg ↦ ground (arith, rw neg at q', read_line-position pos rest line after1 e1 p)
      | inr pos' ↦
          let ((body, e2, after2), p2, q2) = >>=-eq-ok (read_body e1 after1 n) _ (rw pos' at q') in
          ground (
            arith,
            read_line-position pos rest line after1 e1 p,
            read_body-position e1 n after1 body after2 e2 p2,
          )
    ]

module _ {parse : Parser} (adv : ParserAdvances parse) where
  parse_values-Advances :
      (n pos : ℕ) (rest : Bytes) (vs : Values) (e : ℕ) (after : Bytes)
      → parse_values parse n pos rest ≡ ok (vs, e, after)
      → (e + length after ≡ pos + length rest) × (pos ≤ e)
  unfolding parse_values
  parse_values-Advances zero pos rest vs e after h = ground arith
  parse_values-Advances (suc n) pos rest vs e after h =
      let ((v, next, rest'), p, q) = >>=-eq-ok (parse pos rest) _ h in
      let ((vs', e', after'), p', q') = >>=-eq-ok (parse_values parse n next rest') _ q in
      ground
        (arith, adv pos rest v next rest' p, parse_values-Advances n next rest' vs' e' after' p')

  parse_array-Advances :
      (pos : ℕ) (rest : Bytes) (v : Value) (e : ℕ) (after : Bytes)
      → parse_array parse pos rest ≡ ok (v, e, after)
      → Advances pos rest e after
  parse_array-Advances pos rest v e after h =
      let ((line, e1, after1), p, q) = >>=-eq-ok (read_line pos rest) _ h in
      let (n, p', q') = >>=-eq-ok (or_invalid (parse_int_bytes line)) _ q in
      elim (Bool-cases (is_negative n)) [
        | inl neg ↦ ground (arith, rw neg at q', read_line-position pos rest line after1 e1 p)
        | inr pos' ↦
            let ((vs, e2, after2), p2, q2) =
              >>=-eq-ok (parse_values parse n e1 after1) _ (rw pos' at q') in
            ground (
              arith,
              read_line-position pos rest line after1 e1 p,
              parse_values-Advances n e1 after1 vs e2 after2 p2,
            )
      ]

  parse_typed-Advances :
      (typ pos : ℕ) (rest : Bytes) (v : Value) (e : ℕ) (after : Bytes)
      → parse_typed parse typ pos rest ≡ ok (v, e, after)
      → Advances pos (typ ∷ rest) e after
  unfolding parse_typed
  parse_typed-Advances typ pos rest v e after h = elim (Bool-cases (typ == b'+')) [
    | inl y ↦
        step (line-Advances (pos + 1) rest _ (λ l v e after q. ground arith) v e after (rw y at h))
    | inr n1 ↦ elim (Bool-cases (typ == b'-')) [
      | inl y ↦ step (
          line-Advances (pos + 1) rest _ (λ l v e after q. ground arith) v e after
            (rw (n1, y) at h))
      | inr n2 ↦ elim (Bool-cases (typ == b':')) [
        | inl y ↦ step (
            line-Advances (pos + 1) rest _ (λ l v e after q. ground arith) v e after
              (rw (n1, n2, y) at h))
        | inr n3 ↦ elim (Bool-cases (typ == b'$')) [
          | inl y ↦ step (parse_bulk-Advances (pos + 1) rest v e after (rw (n1, n2, n3, y) at h))
          | inr n4 ↦ elim (Bool-cases (typ == b'*')) [
            | inl y ↦
                step (parse_array-Advances (pos + 1) rest v e after (rw (n1, n2, n3, n4, y) at h))
            | inr n5 ↦
                parse_inline_at-Advances pos (typ ∷ rest) v e after (rw (n1, n2, n3, n4, n5) at h)
          ]
        ]
      ]
    ]
  ]
    where
      step : Advances (pos + 1) rest e after → Advances pos (typ ∷ rest) e after
      step a = omega arith

parse_value_at-Advances : (f : ℕ) → ParserAdvances (parse_value_at f)
unfolding parse_value_at
parse_value_at-Advances zero pos rest v e after h = cc
parse_value_at-Advances (suc f) pos [] v e after h = cc
parse_value_at-Advances (suc f) pos (typ ∷ rest) v e after h =
    parse_typed-Advances (parse_value_at-Advances f) typ pos rest v e after h

-- `ParseValue` takes at least one byte, and none that is not there.
pub parse_value_bounds :
    (buf : Bytes) (v : Value) (e : ℕ) → parse_value buf ≡ ok (v, e) → (0 < e) × (e ≤ length buf)
unfolding parse_value
parse_value_bounds buf v e h =
    let ((v', e', after), p, q) = >>=-eq-ok (parse_value_at (length buf + 1) 0 buf) _ h in
    ground (arith, parse_value_at-Advances (length buf + 1) 0 buf v' e' after p)

-- With fuel above the length of what is left the parser does not run out of it.
abbrev IsLive : ℕ → Parser → Type 0
IsLive f parse = (pos : ℕ) (rest : Bytes) → length rest < f → parse pos rest ≢ stuck

pub read_line-ne-stuck : (pos : ℕ) (rest : Bytes) → read_line pos rest ≢ stuck
unfolding read_line
read_line-ne-stuck pos rest = ground arith

parse_bulk-ne-stuck : (pos : ℕ) (rest : Bytes) → parse_bulk pos rest ≢ stuck
unfolding read_body
parse_bulk-ne-stuck pos rest =
    >>=-ne-stuck (read_line pos rest) _ (read_line-ne-stuck pos rest) (λ l p. ground arith)

module _ {parse : Parser} (adv : ParserAdvances parse) (f : ℕ) (live : IsLive f parse) where
  parse_values-ne-stuck :
      (n pos : ℕ) (rest : Bytes) → length rest < f → parse_values parse n pos rest ≢ stuck
  unfolding parse_values
  parse_values-ne-stuck zero pos rest h = λ e. cc
  parse_values-ne-stuck (suc n) pos rest h =
      >>=-ne-stuck (parse pos rest) _ (live pos rest h) (λ r p.
        >>=-ne-stuck (parse_values parse n r.1 r.2) _
          (parse_values-ne-stuck n r.1 r.2 (omega (arith, adv pos rest r.0 r.1 r.2 p)))
          (λ s q e. cc))

  parse_array-ne-stuck :
      (pos : ℕ) (rest : Bytes) → length rest < f → parse_array parse pos rest ≢ stuck
  parse_array-ne-stuck pos rest h =
      >>=-ne-stuck (read_line pos rest) _ (read_line-ne-stuck pos rest) (λ l p.
        >>=-ne-stuck (or_invalid (parse_int_bytes l.0)) _ (ground arith) (λ n q. ground (
          arith,
          parse_values-ne-stuck n l.1 l.2
              (omega (arith, read_line-position pos rest l.0 l.2 l.1 p)),
        )))

  parse_typed-ne-stuck :
      (typ pos : ℕ) (rest : Bytes) → length rest < f → parse_typed parse typ pos rest ≢ stuck
  unfolding parse_typed
  parse_typed-ne-stuck typ pos rest h = ground (
    arith,
    read_line-ne-stuck (pos + 1) rest,
    read_line-ne-stuck pos (typ ∷ rest),
    parse_bulk-ne-stuck (pos + 1) rest,
    parse_array-ne-stuck (pos + 1) rest h,
  )

parse_value_at-ne-stuck : (f : ℕ) → IsLive f (parse_value_at f)
unfolding parse_value_at
parse_value_at-ne-stuck zero pos rest h = absurd (omega arith)
parse_value_at-ne-stuck (suc f) pos [] h = λ e. cc
parse_value_at-ne-stuck (suc f) pos (typ ∷ rest) h =
    parse_typed-ne-stuck (parse_value_at-Advances f) f (parse_value_at-ne-stuck f) typ pos rest
      (omega arith)

-- `ParseValue` ends on every buffer with one of the answers of the code: the fuel of the model is
-- enough.
pub parse_value_total : (buf : Bytes) → parse_value buf ≢ stuck
unfolding parse_value
parse_value_total buf =
    >>=-ne-stuck (parse_value_at (length buf + 1) 0 buf) _
      (parse_value_at-ne-stuck (length buf + 1) 0 buf (omega arith)) (λ a p e. cc)

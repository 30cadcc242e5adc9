-- ===== src/Proto/Scan/Agree.antt =====
-- Where `ParseValue` finds a value, `ScanValue` finds its end and its kind.
use pluster.Prelude.{
  ℕ, zero, suc, ◌+◌, ◌≡◌, subst, ◌↔◌, true, false, Bool-cases, inl, inr, Option, none, some, [],
  ◌∷◌, arith, Bytes, length,
}
use pluster.Proto.Outcome.{Outcome, ok, ◌>>=◌, >>=-eq-ok}
use pluster.Proto.Int64.{is_negative, parse_int_bytes}
use pluster.Proto.Value.{
  Value, simple_string, error, integer, bulk_string, nil_bulk_string, array, nil_array, nil_pointer,
  Values, is_moved_error, is_ask_error, is_error, has_prefix,
}
use pluster.Proto.Line.{read_line}
use pluster.Proto.Parse.{
  parse_values, parse_typed, parse_value_at, parse_value, or_invalid, parse_array,
}
use pluster.Proto.Scan.{
  ErrorKind, kind_none, kind_moved, kind_ask, Scanned, classify, scan_values, scan_typed,
  scan_value_at, scan_value, or_incomplete, scan_array, no_error,
}

abbrev kind_of : Value → ErrorKind
kind_of (error str) = classify str
kind_of _ = kind_none

abbrev message_of : Value → Bytes
message_of (error str) = str
message_of _ = []

abbrev scanned : Value × ℕ × Bytes → Scanned
scanned (v, e, after) = record { end = e; kind = kind_of v; err_msg = message_of v; after = after }

abbrev Parser : Type 0
Parser = ℕ → Bytes → Outcome (Value × ℕ × Bytes)

-- `scan` finds what `parse` finds.
abbrev Agrees : Parser → (ℕ → Bytes → Outcome Scanned) → Type 0
Agrees parse scan =
    (pos : ℕ) (rest : Bytes) (r : Value × ℕ × Bytes)
    → parse pos rest ≡ ok r
    → scan pos rest ≡ ok (scanned r)

scan_values-parse_values :
    {parse : Parser} {scan : ℕ → Bytes → Outcome Scanned}
    → Agrees parse scan
    → (n cur : ℕ) (rest : Bytes) (r : Values × ℕ × Bytes) → parse_values parse n cur rest ≡ ok r
    → scan_values scan n cur rest ≡ ok (r.1, r.2)
unfolding parse_values scan_values
scan_values-parse_values agree zero cur rest r h = ground arith
scan_values-parse_values {parse} agree (suc n) cur rest r h =
    let ((v, next, rest'), p, q) = >>=-eq-ok (parse cur rest) _ h in
    let ((vs, e, after), p', q') = >>=-eq-ok (parse_values parse n next rest') _ q in
    rw
      (
        agree cur rest (v, next, rest') p,
        scan_values-parse_values agree n next rest' (vs, e, after) p',
      )
      (ground arith)

or_incomplete-or_invalid : (o : Option ℕ) {n : ℕ} → or_invalid o ≡ ok n → or_incomplete o ≡ ok n
or_incomplete-or_invalid none h = cc
or_incomplete-or_invalid (some m) h = h

module _ {parse : Parser} {scan : ℕ → Bytes → Outcome Scanned} (agree : Agrees parse scan) where
  -- The elements of an array, once its length is read.
  scan_elements :
      (n e : ℕ) (after : Bytes) (r : Value × ℕ × Bytes)
      → (parse_values parse n e after >>= λ s. ok (array s.0, s.1, s.2)) ≡ ok r
      → (scan_values scan n e after >>= λ s. no_error s.0 s.1) ≡ ok (scanned r)
  scan_elements n e after r h =
      let ((vs, cur, after'), p, q) = >>=-eq-ok (parse_values parse n e after) _ h in
      rw (scan_values-parse_values agree n e after (vs, cur, after') p) (ground arith)

  scan_array-parse_array :
      (pos : ℕ) (rest : Bytes) (r : Value × ℕ × Bytes)
      → parse_array parse pos rest ≡ ok r
      → scan_array scan pos rest ≡ ok (scanned r)
  scan_array-parse_array pos rest r h =
      let ((line, e, after), p, q) = >>=-eq-ok (read_line pos rest) _ h in
      let (n, p', q') = >>=-eq-ok (or_invalid (parse_int_bytes line)) _ q in
      rw (p, or_incomplete-or_invalid (parse_int_bytes line) p')
        (elim (Bool-cases (is_negative n)) [
          | inl neg ↦ rw neg (ground (arith, rw neg at q'))
          | inr pos ↦ rw pos (scan_elements n e after r (rw pos at q'))
        ])

  scan_typed-parse_typed :
      (typ pos : ℕ) (rest : Bytes) (r : Value × ℕ × Bytes)
      → parse_typed parse typ pos rest ≡ ok r
      → scan_typed scan typ pos rest ≡ ok (scanned r)
  unfolding parse_typed scan_typed
  scan_typed-parse_typed typ pos rest r h = ground (arith, scan_array-parse_array (pos + 1) rest r)

scan_value_at-parse_value_at : (f : ℕ) → Agrees (parse_value_at f) (scan_value_at f)
unfolding parse_value_at scan_value_at
scan_value_at-parse_value_at zero pos rest r h = cc
scan_value_at-parse_value_at (suc f) pos [] r h = cc
scan_value_at-parse_value_at (suc f) pos (typ ∷ rest) r h =
    scan_typed-parse_typed (scan_value_at-parse_value_at f) typ pos rest r h

-- The kind says of the value what `IsMovedError`, `IsAskError` and `IsError` say.
abbrev pub Classifies : ErrorKind → Value → Type 0
Classifies kind v =
    ((kind ≡ kind_moved) ↔ (is_moved_error v ≡ true))
    × ((kind ≡ kind_ask) ↔ (is_ask_error v ≡ true))
    × ((kind ≡ kind_none) ↔ (is_error v ≡ false))

kind_of-Classifies : (v : Value) → Classifies (kind_of v) v
unfolding is_moved_error is_ask_error is_error has_prefix
kind_of-Classifies (error []) = ground arith
kind_of-Classifies (error (c ∷ cs)) = ground arith
kind_of-Classifies (simple_string str) = ground arith
kind_of-Classifies (integer n) = ground arith
kind_of-Classifies (bulk_string str) = ground arith
kind_of-Classifies nil_bulk_string = ground arith
kind_of-Classifies (array vs) = ground arith
kind_of-Classifies nil_array = ground arith
kind_of-Classifies nil_pointer = ground arith

-- Where `ParseValue` reads a value, `ScanValue` ends at the same byte, and the kind that it reports
-- tells a MOVED error, an ASK error and a value that is no error from the others, as
-- `IsMovedError`, `IsAskError` and `IsError` do.
pub scan_value-parse_value :
    (buf : Bytes) (v : Value) (e : ℕ)
    → parse_value buf ≡ ok (v, e)
    → (s : Scanned) × (scan_value buf ≡ ok s) × (s.end ≡ e) × Classifies s.kind v
unfolding parse_value scan_value
scan_value-parse_value buf v e h =
    let ((v', e', after), p, q) = >>=-eq-ok (parse_value_at (length buf + 1) 0 buf) _ h in
    let same : v' ≡ v = ground arith in
    (
      scanned (v', e', after),
      scan_value_at-parse_value_at _ 0 buf _ p,
      ground arith,
      subst (Classifies (kind_of v')) same (kind_of-Classifies v'),
    )

-- ===== src/Proto/Scan.antt =====
-- `ScanValue` of pkg/proto/resp.go, which finds the end of a reply without parsing it. An end of 0
-- is `incomplete` here; an end that has wrapped around to a negative number, which the caller's
-- next slice or index refuses, is `panicked`.
pub mod Agree
pub mod Total
use pluster.Prelude.{
  ℕ, zero, suc, ◌+◌, ◌||◌, Option, none, some, [], ◌∷◌, ◌==◌, if◌then◌else◌, Bytes, codes, length,
}
use pluster.Proto.Outcome.{Outcome, ok, incomplete, stuck, ◌>>=◌}
use pluster.Proto.Int64.{is_negative, parse_int_bytes}
use pluster.Proto.Value.{has_prefix}
use pluster.Proto.Line.{read_line, read_body}

-- `ErrorKind`.
pub data ErrorKind : Type 0 where
  kind_none kind_moved kind_ask kind_other : ErrorKind

-- `end`, `kind` and `errMsg`, and what follows the value in the buffer.
pub record Scanned : Type 0 where
  pub end : ℕ
  pub kind : ErrorKind
  pub err_msg : Bytes
  pub after : Bytes

abbrev pub no_error : ℕ → Bytes → Outcome Scanned
no_error e after = ok (record { end = e; kind = kind_none; err_msg = []; after = after })

-- The kind of an error line.
abbrev pub classify : Bytes → ErrorKind
classify line =
    if has_prefix line (codes "MOVED ")
    then kind_moved
    else if has_prefix line (codes "ASK ")
    then kind_ask
    else kind_other

-- A length that does not parse ends the scan with 0.
abbrev pub or_incomplete : Option ℕ → Outcome ℕ
or_incomplete none = incomplete
or_incomplete (some n) = ok n

-- `for i := int64(0); i < n; i++ { next, _, _ := scanValueAt(buf, cur) … }`.
unfoldable pub scan_values : (ℕ → Bytes → Outcome Scanned) → ℕ → ℕ → Bytes → Outcome (ℕ × Bytes)
scan_values scan zero cur rest = ok (cur, rest)
scan_values scan (suc n) cur rest = do next ← scan cur rest; scan_values scan n next.end next.after

abbrev pub scan_bulk : ℕ → Bytes → Outcome Scanned
scan_bulk pos rest = do
  (line, e, after) ← read_line pos rest
  n ← or_incomplete (parse_int_bytes line)
  if is_negative n
      then no_error e after
      else (do (body, need, after') ← read_body e after n; no_error need after')

abbrev pub scan_array : (ℕ → Bytes → Outcome Scanned) → ℕ → Bytes → Outcome Scanned
scan_array scan pos rest = do
  (line, e, after) ← read_line pos rest
  n ← or_incomplete (parse_int_bytes line)
  if is_negative n
      then no_error e after
      else (do (cur, after') ← scan_values scan n e after; no_error cur after')

-- The switch of `scanValueAt`, at the type byte; `scan` is the function for the elements.
unfoldable pub scan_typed : (ℕ → Bytes → Outcome Scanned) → ℕ → ℕ → Bytes → Outcome Scanned
unfolding scan_values
scan_typed scan typ pos rest =
    if typ == b'+' || typ == b':'
    then (do (line, e, after) ← read_line (pos + 1) rest; no_error e after)
    else if typ == b'-'
    then (do
      (line, e, after) ← read_line (pos + 1) rest
      ok (record { end = e; kind = classify line; err_msg = line; after = after }))
    else if typ == b'$'
    then scan_bulk (pos + 1) rest
    else if typ == b'*'
    then scan_array scan (pos + 1) rest
    else (do (line, e, after) ← read_line pos (typ ∷ rest); no_error e after)

-- `scanValueAt(buf, pos)`, at `rest = buf[pos:]`, with fuel as in `parse_value_at`.
unfoldable pub scan_value_at : ℕ → ℕ → Bytes → Outcome Scanned
unfolding scan_typed
scan_value_at zero pos rest = stuck
scan_value_at (suc f) pos [] = incomplete
scan_value_at (suc f) pos (typ ∷ rest) = scan_typed (scan_value_at f) typ pos rest

-- `ScanValue`.
unfoldable pub scan_value : Bytes → Outcome Scanned
unfolding scan_value_at
scan_value buf = scan_value_at (length buf + 1) 0 buf

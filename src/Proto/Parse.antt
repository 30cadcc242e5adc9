-- ===== src/Proto/Parse.antt =====
-- `ParseValue` and `ScanValue` of pkg/proto/resp.go. The fuel bounds how deep arrays are nested;
-- the length of the buffer is enough (Parse/Total).
pub mod Total
use pluster.Prelude.{
  ℕ, zero, suc, ◌+◌, Bool, true, false, ◌&&◌, ◌||◌, Option, none, some, List, [], ◌∷◌, ◌++◌, map,
  ltb, leb, ◌==◌, if◌then◌else◌, Bytes, codes, length,
}
use pluster.Proto.Outcome.{Outcome, ok, incomplete, invalid, panicked, stuck, ◌>>=◌}
use pluster.Proto.Int64.{is_negative, parse_int_bytes}
use pluster.Proto.Value.{
  Value, simple_string, error, integer, bulk_string, nil_bulk_string, array, nil_array, Values, nil,
  cons, has_prefix,
}
use pluster.Proto.Line.{read_line, read_body}

-- The white space of `bytes.Fields` and `bytes.TrimSpace`, over ASCII.
abbrev pub is_space : ℕ → Bool
is_space c = (leb 9 c && leb c 13) || c == b' '

-- A word, unless it is empty.
abbrev pub word_of : Bytes → List Bytes
word_of [] = []
word_of (x ∷ xs) = (x ∷ xs) ∷ []

abbrev pub fields_from : Bytes → Bytes → List Bytes
fields_from acc [] = word_of acc
fields_from acc (c ∷ cs) =
    (if is_space c then word_of acc else [])
    ++ fields_from (if is_space c then [] else acc ++ c ∷ []) cs

-- `bytes.Fields`.
unfoldable pub fields : Bytes → List Bytes
fields b = fields_from [] b

abbrev pub trim_left : Bytes → Bytes
trim_left [] = []
trim_left (c ∷ cs) = let rest = trim_left cs in if is_space c then rest else c ∷ cs

abbrev pub cons_unless_space : ℕ → Bytes → Bytes
cons_unless_space c [] = if is_space c then [] else c ∷ []
cons_unless_space c (d ∷ cs) = c ∷ d ∷ cs

abbrev pub trim_right : Bytes → Bytes
trim_right [] = []
trim_right (c ∷ cs) = cons_unless_space c (trim_right cs)

-- `bytes.TrimSpace`.
unfoldable pub trim_space : Bytes → Bytes
trim_space b = trim_right (trim_left b)

abbrev pub is_nil {ℓ} : {A : Type ℓ} → List A → Bool
is_nil [] = true
is_nil (x ∷ xs) = false

-- The bulk strings of a list of words.
abbrev pub bulk_strings : List Bytes → Values
bulk_strings [] = nil
bulk_strings (p ∷ ps) = cons (bulk_string p) (bulk_strings ps)

-- `parseInlineAt`.
unfoldable pub parse_inline_at : ℕ → Bytes → Outcome (Value × ℕ × Bytes)
unfolding trim_space fields
parse_inline_at pos rest = do
  (line, e, after) ← read_line pos rest
  let trimmed = trim_space line
  if is_nil trimmed then invalid else ok (array (bulk_strings (fields trimmed)), e, after)

-- The integer on a line; `errIncomplete` if there is no line, `ErrInvalidProtocol` if it is none.
abbrev pub or_invalid : Option ℕ → Outcome ℕ
or_invalid none = invalid
or_invalid (some n) = ok n

-- `for i := int64(0); i < n; i++ { v, next, verr := parseValueAt(buf, cur) … }`.
unfoldable pub parse_values :
    (ℕ → Bytes → Outcome (Value × ℕ × Bytes)) → ℕ → ℕ → Bytes → Outcome (Values × ℕ × Bytes)
parse_values parse zero cur rest = ok (nil, cur, rest)
parse_values parse (suc n) cur rest = do
  (v, next, rest') ← parse cur rest
  (vs, e, after) ← parse_values parse n next rest'
  ok (cons v vs, e, after)

abbrev pub parse_bulk : ℕ → Bytes → Outcome (Value × ℕ × Bytes)
parse_bulk pos rest = do
  (line, e, after) ← read_line pos rest
  n ← or_invalid (parse_int_bytes line)
  if is_negative n
      then ok (nil_bulk_string, e, after)
      else (do (body, need, after') ← read_body e after n; ok (bulk_string body, need, after'))

abbrev pub parse_array :
    (ℕ → Bytes → Outcome (Value × ℕ × Bytes)) → ℕ → Bytes → Outcome (Value × ℕ × Bytes)
parse_array parse pos rest = do
  (line, e, after) ← read_line pos rest
  n ← or_invalid (parse_int_bytes line)
  if is_negative n
      then ok (nil_array, e, after)
      else (do (vs, cur, after') ← parse_values parse n e after; ok (array vs, cur, after'))

-- The switch of `parseValueAt`, at the type byte; `parse` is the function for the elements.
unfoldable pub parse_typed :
    (ℕ → Bytes → Outcome (Value × ℕ × Bytes)) → ℕ → ℕ → Bytes → Outcome (Value × ℕ × Bytes)
unfolding parse_values parse_inline_at
parse_typed parse typ pos rest =
    if typ == b'+'
    then (do (line, e, after) ← read_line (pos + 1) rest; ok (simple_string line, e, after))
    else if typ == b'-'
    then (do (line, e, after) ← read_line (pos + 1) rest; ok (error line, e, after))
    else if typ == b':'
    then (do
      (line, e, after) ← read_line (pos + 1) rest
      n ← or_invalid (parse_int_bytes line)
      ok (integer n, e, after))
    else if typ == b'$'
    then parse_bulk (pos + 1) rest
    else if typ == b'*'
    then parse_array parse (pos + 1) rest
    else parse_inline_at pos (typ ∷ rest)

-- `parseValueAt(buf, pos)`, at `rest = buf[pos:]`.
unfoldable pub parse_value_at : ℕ → ℕ → Bytes → Outcome (Value × ℕ × Bytes)
unfolding parse_typed
parse_value_at zero pos rest = stuck
parse_value_at (suc f) pos [] = incomplete
parse_value_at (suc f) pos (typ ∷ rest) = parse_typed (parse_value_at f) typ pos rest

-- `ParseValue`: the value and how many bytes it takes. `incomplete` is the answer `nil, 0, nil`.
unfoldable pub parse_value : Bytes → Outcome (Value × ℕ)
unfolding parse_value_at
parse_value buf = do (v, e, after) ← parse_value_at (length buf + 1) 0 buf; ok (v, e)

-- ===== src/Proto/Reader.antt =====
-- The stream `Reader` of pkg/proto/resp.go, over all the bytes that its connection will give. The
-- errors of `bufio.Reader` are `incomplete`: the stream ends too early. The fuel bounds how deep
-- arrays are nested.
pub mod RoundTrip
pub mod Total
pub mod Commands
use pluster.Prelude.{
  ℕ, zero, suc, ◌+◌, ◌||◌, Bool, true, false, Option, none, some, List, [], ◌∷◌, ◌++◌, ltb, ◌==◌,
  if◌then◌else◌, Bytes, length, take, drop,
}
use mathlib.Core.Option
use pluster.Proto.Outcome.{Outcome, ok, incomplete, invalid, panicked, stuck, ◌>>=◌}
use pluster.Proto.Int64.{is_negative, add64}
use pluster.Proto.Value.{
  Value, simple_string, error, integer, bulk_string, nil_bulk_string, array, nil_array, Values, nil,
  cons,
}
use pluster.Proto.Line.{split_newline}
use pluster.Proto.Parse.{fields, bulk_strings, is_nil, or_invalid}
use pluster.Router.Redirect.{atoi}

-- `Reader.readLine`: the line without its "\r\n", and what follows it.
unfoldable pub without_cr : Bytes → Option Bytes
without_cr [] = none
without_cr (c ∷ []) = if c == b'\r' then some [] else none
without_cr (c ∷ d ∷ cs) = Option.map (λ (l : Bytes). c ∷ l) (without_cr (d ∷ cs))

abbrev pub ends_in_crlf : Option Bytes → Bytes → Outcome (Bytes × Bytes)
ends_in_crlf none after = invalid
ends_in_crlf (some line) after = ok (line, after)

unfoldable pub next_line : Bytes → Outcome (Bytes × Bytes)
unfolding split_newline without_cr
next_line rest = elim (split_newline rest) [
  | none ↦ incomplete
  | some (line, after) ↦ ends_in_crlf (without_cr line) after
]

-- `io.ReadFull` of `n+2` bytes, for a buffer that `make` refuses where its length has wrapped.
abbrev pub read_full : ℕ → Bytes → Outcome (Value × Bytes)
read_full n rest =
    if is_negative (add64 n 2)
    then panicked
    else if ltb (length rest) (n + 2)
    then incomplete
    else ok (bulk_string (take n rest), drop (n + 2) rest)

-- `readInteger` and `readBulkString`; on 64 bits `ParseInt(s, 10, 64)` is `Atoi`.
unfoldable pub read_integer : Bytes → Outcome (Value × Bytes)
unfolding next_line atoi
read_integer rest = do
  (line, after) ← next_line rest
  n ← or_invalid (atoi line)
  ok (integer n, after)

unfoldable pub read_bulk_string : Bytes → Outcome (Value × Bytes)
unfolding next_line atoi
read_bulk_string rest = do
  (line, after) ← next_line rest
  n ← or_invalid (atoi line)
  if is_negative n then ok (nil_bulk_string, after) else read_full n after

-- `readInline`: the rest of the line may end with the stream.
abbrev pub is_crlf : ℕ → Bool
is_crlf c = c == b'\r' || c == b'\n'

abbrev pub cons_unless_crlf : ℕ → Bytes → Bytes
cons_unless_crlf c [] = if is_crlf c then [] else c ∷ []
cons_unless_crlf c (d ∷ cs) = c ∷ d ∷ cs

unfoldable pub trim_crlf : Bytes → Bytes
trim_crlf [] = []
trim_crlf (c ∷ cs) = cons_unless_crlf c (trim_crlf cs)

abbrev pub line_or_rest : Bytes → Option (Bytes × Bytes) → Bytes × Bytes
line_or_rest rest none = (rest, [])
line_or_rest rest (some (line, after)) = (line ++ b'\n' ∷ [], after)

abbrev pub inline_of : List Bytes → Bytes → Outcome (Value × Bytes)
inline_of [] after = invalid
inline_of (w ∷ ws) after = ok (array (bulk_strings (w ∷ ws)), after)

unfoldable pub read_inline : ℕ → Bytes → Outcome (Value × Bytes)
unfolding split_newline trim_crlf fields
read_inline first rest =
    let (line, after) = line_or_rest rest (split_newline rest) in
    let full = trim_crlf (first ∷ line) in
    if is_nil full then invalid else inline_of (fields full) after

-- The loop of `readArray`; `read` is `ReadByte` and `readValue`.
unfoldable pub read_values :
    (Bytes → Outcome (Value × Bytes)) → ℕ → Bytes → Outcome (Values × Bytes)
read_values read zero rest = ok (nil, rest)
read_values read (suc n) rest = do
  (v, rest') ← read rest
  (vs, after) ← read_values read n rest'
  ok (cons v vs, after)

unfoldable pub read_array : (Bytes → Outcome (Value × Bytes)) → Bytes → Outcome (Value × Bytes)
unfolding next_line atoi read_values
read_array read rest = do
  (line, after) ← next_line rest
  n ← or_invalid (atoi line)
  if is_negative n
      then ok (nil_array, after)
      else (do (vs, after') ← read_values read n after; ok (array vs, after'))

-- `readValue`, at the type byte.
unfoldable pub read_typed : (Bytes → Outcome (Value × Bytes)) → ℕ → Bytes → Outcome (Value × Bytes)
unfolding next_line read_integer read_bulk_string read_array read_inline
read_typed read typ rest =
    if typ == b'+'
    then (do (line, after) ← next_line rest; ok (simple_string line, after))
    else if typ == b'-'
    then (do (line, after) ← next_line rest; ok (error line, after))
    else if typ == b':'
    then read_integer rest
    else if typ == b'$'
    then read_bulk_string rest
    else if typ == b'*'
    then read_array read rest
    else read_inline typ rest

unfoldable pub read_value_from : ℕ → Bytes → Outcome (Value × Bytes)
unfolding read_typed
read_value_from zero rest = stuck
read_value_from (suc f) [] = incomplete
read_value_from (suc f) (b ∷ rest) = read_typed (read_value_from f) b rest

-- `ReadValue`: the value, and what is left of the stream.
unfoldable pub read_value : Bytes → Outcome (Value × Bytes)
unfolding read_value_from
read_value rest = read_value_from (length rest + 1) rest

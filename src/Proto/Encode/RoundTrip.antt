-- ===== src/Proto/Encode/RoundTrip.antt =====
-- Parsing what the encoders write.
use pluster.Prelude.{
  ℕ, zero, suc, ◌+◌, ◌<◌, ◌≡◌, sym, ◌∙◌, ap, false, [], ◌∷◌, ◌++◌, append-nil, arith, Bytes, All,
  length,
}
use pluster.Proto.Outcome.{ok}
use pluster.Proto.Int64.{word, half_word, format_int, is_negative, parse_int_bytes}
use pluster.Proto.Int64.RoundTrip.{NoNewline, parse_int_bytes-format_int, format_int-NoNewline}
use pluster.Proto.Value.{
  Value, simple_string, error, integer, bulk_string, nil_bulk_string, array, nil_array, nil_pointer,
  Values, nil, cons, count_values,
}
use pluster.Proto.Line.{read_line, read_line-crlf, read_body-crlf}
use pluster.Proto.Parse.{parse_values, parse_value_at, parse_value}
use pluster.Proto.Encode.{encode_value}
use pluster.Proto.Encode.Render.{
  render, render_values, size, size_values, depth, depth_values, IsEncodable, AllEncodable,
  encode_value-render, length-render, length-encode_value, depth-le-size, count-le-size,
}

-- A line with an integer on it.
pub read_int :
    (pos n : ℕ) (rest : Bytes)
    → read_line pos (format_int n ++ b'\r' ∷ b'\n' ∷ rest)
      ≡ ok (format_int n, pos + length (format_int n) + 2, rest)
read_int pos n rest = read_line-crlf pos (format_int n) rest (format_int-NoNewline n)

-- One lemma for each constructor: `parseValueAt` at its encoding.
module _ (f pos : ℕ) (rest : Bytes) where
  abbrev Reads : Value → Type 0
  Reads v = parse_value_at (suc f) pos (render v rest) ≡ ok (v, pos + size v, rest)

  Reads-simple_string : (str : Bytes) → All NoNewline str → Reads (simple_string str)
  unfolding parse_value_at
  Reads-simple_string str h =
      rw (read_line-crlf (pos + 1) str rest h)
        (ap (λ e. ok (simple_string str, e, rest)) (omega arith))

  Reads-error : (str : Bytes) → All NoNewline str → Reads (error str)
  unfolding parse_value_at
  Reads-error str h =
      rw (read_line-crlf (pos + 1) str rest h) (ap (λ e. ok (error str, e, rest)) (omega arith))

  Reads-integer : (n : ℕ) → n < word → Reads (integer n)
  unfolding parse_value_at
  Reads-integer n h =
      rw (read_int (pos + 1) n rest, parse_int_bytes-format_int n h)
        (ap (λ e. ok (integer n, e, rest)) (omega arith))

  Reads-nil_bulk_string : Reads nil_bulk_string
  unfolding parse_value_at read_line parse_int_bytes
  Reads-nil_bulk_string = ap (λ e. ok (nil_bulk_string, e, rest)) (omega arith)

  Reads-nil_array : Reads nil_array
  unfolding parse_value_at read_line parse_int_bytes
  Reads-nil_array = ap (λ e. ok (nil_array, e, rest)) (omega arith)

  Reads-bulk_string :
      (str : Bytes) → pos + size (bulk_string str) < half_word → Reads (bulk_string str)
  unfolding parse_value_at
  Reads-bulk_string str s =
      rw
        (
          read_int (pos + 1) (length str) (str ++ b'\r' ∷ b'\n' ∷ rest),
          parse_int_bytes-format_int (length str) (omega arith),
          small,
          read_body-crlf (pos + 1 + length (format_int (length str)) + 2) str rest (omega arith),
        )
        (ap (λ e. ok (bulk_string str, e, rest)) (omega arith))
    where
      small : is_negative (length str) ≡ false
      small = ground arith

  Reads-array :
      (vs : Values)
      → pos + size (array vs) < half_word
      → ((e : ℕ)
          → e + size_values vs ≡ pos + size (array vs)
          → parse_values (parse_value_at f) (count_values vs) e (render_values vs rest)
            ≡ ok (vs, pos + size (array vs), rest))
      → Reads (array vs)
  unfolding parse_value_at
  Reads-array vs s elements = rw (
    read_int (pos + 1) (count_values vs) (render_values vs rest),
    parse_int_bytes-format_int (count_values vs) (omega (arith, count-le-size vs)),
    small,
    elements (pos + 1 + length (format_int (count_values vs)) + 2) (omega arith),
  )
    where
      small : is_negative (count_values vs) ≡ false
      small = ground (arith, count-le-size vs)

mutual
  unfolding parse_values

  parse_value_at-render :
      (v : Value) (f pos : ℕ) (rest : Bytes)
      → IsEncodable v
      → depth v < f
      → pos + size v < half_word
      → parse_value_at f pos (render v rest) ≡ ok (v, pos + size v, rest)
  parse_value_at-render (simple_string str) (suc f) pos rest h d s =
      Reads-simple_string f pos rest str h
  parse_value_at-render (error str) (suc f) pos rest h d s = Reads-error f pos rest str h
  parse_value_at-render (integer n) (suc f) pos rest h d s = Reads-integer f pos rest n h
  parse_value_at-render nil_bulk_string (suc f) pos rest h d s = Reads-nil_bulk_string f pos rest
  parse_value_at-render (bulk_string str) (suc f) pos rest h d s =
      Reads-bulk_string f pos rest str s
  parse_value_at-render nil_array (suc f) pos rest h d s = Reads-nil_array f pos rest
  parse_value_at-render (array vs) (suc f) pos rest h d s = Reads-array f pos rest vs s (λ e p.
      parse_values-render vs f e rest h (omega arith) (omega arith) ∙ ap (λ t. ok (vs, t, rest)) p)
  parse_value_at-render nil_pointer (suc f) pos rest h d s = absurd h
  parse_value_at-render v zero pos rest h d s = absurd (omega arith)

  parse_values-render :
      (vs : Values) (f pos : ℕ) (rest : Bytes)
      → AllEncodable vs
      → depth_values vs < f
      → pos + size_values vs < half_word
      → parse_values (parse_value_at f) (count_values vs) pos (render_values vs rest)
        ≡ ok (vs, pos + size_values vs, rest)
  parse_values-render nil f pos rest h d s = ap (λ e. ok (nil, e, rest)) (omega arith)
  parse_values-render (cons v vs) f pos rest h d s =
      rw
        (
          parse_value_at-render v f pos (render_values vs rest) h.0 (omega arith) (omega arith),
          parse_values-render vs f (pos + size v) rest h.1 (omega arith) (omega arith),
        )
        (ap (λ e. ok (cons v vs, e, rest)) (omega arith))

-- `ParseValue` on an encoded value, with anything behind it, gives the value back and the length of
-- its encoding, if the value is encodable and the encoding is shorter than 2^63 bytes.
pub parse_value-encode_value :
    (v : Value) (rest : Bytes)
    → IsEncodable v
    → length (encode_value v) < half_word
    → parse_value (encode_value v ++ rest) ≡ ok (v, length (encode_value v))
unfolding parse_value
parse_value-encode_value v rest h s =
    rw
      (
        encode_value-render v rest,
        parse_value_at-render v (length (render v rest) + 1) 0 rest h
            (omega (arith, length-render v rest, depth-le-size v))
            (omega (arith, length-encode_value v)),
      )
      (ap (λ e. ok (v, e)) (omega (arith, length-encode_value v)))

-- The same, with nothing behind it.
pub parse_value-whole :
    (v : Value)
    → IsEncodable v
    → length (encode_value v) < half_word
    → parse_value (encode_value v) ≡ ok (v, length (encode_value v))
parse_value-whole v h s =
    ap parse_value (sym (append-nil (encode_value v))) ∙ parse_value-encode_value v [] h s

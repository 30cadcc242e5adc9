-- ===== src/Proto/Reader/RoundTrip.antt =====
-- Reading from a stream what the encoders write.
use pluster.Prelude.{
  ℕ, zero, suc, ◌+◌, ◌-◌, ◌≤◌, ◌<◌, ◌≡◌, ◌≢◌, refl, ◌∙◌, ap, true, false, some, [], ◌∷◌, ◌++◌,
  arith, Bytes, All, length, ◌==◌, Bool-cases, inl, inr, length-append,
}
use pluster.Proto.Outcome.{ok}
use pluster.Proto.Int64.{word, half_word, decimal, format_int, is_negative}
use pluster.Proto.Int64.RoundTrip.{
  NoNewline, IsDigit, decimal-digits, decimal-ne-nil, format_int-NoNewline,
}
use pluster.Proto.Value.{
  Value, simple_string, error, integer, bulk_string, nil_bulk_string, array, nil_array, nil_pointer,
  Values, nil, cons, count_values,
}
use pluster.Proto.Line.{split_newline-lem, take-append, drop-append}
use pluster.Proto.Encode.{encode_value}
use pluster.Proto.Encode.Render.{
  render, render_values, size, size_values, depth, depth_values, IsEncodable, AllEncodable,
  encode_value-render, length-render, length-encode_value, depth-le-size, count-le-size,
}
use pluster.Engine.Mux.Traffic.{atoi_ok, atoi_digits, fits, digits_fit}
use pluster.Router.Redirect.{atoi}
use pluster.Router.Scan.Reply.{atoi_digits-decimal_20}
use pluster.Proto.Reader.{
  without_cr, next_line, read_full, read_integer, read_bulk_string, read_values, read_array,
  read_value_from, read_value,
}

-- `Atoi` reads back what `FormatInt` writes.
digits_fit-decimal : (bound n : ℕ) → n < word → n ≤ bound → digits_fit bound (decimal 20 n) ≡ true
digits_fit-decimal bound n h b =
    unfolded (decimal 20 n) (decimal-ne-nil 19 n)
    ∙ ap (fits bound) (atoi_digits-decimal_20 n h)
    ∙ ground arith
  where
    unfolded : (ds : Bytes) → ds ≢ [] → digits_fit bound ds ≡ fits bound (atoi_digits 0 ds)
    unfolded [] e = absurd (e refl)
    unfolded (d ∷ ds) e = refl

atoi-unsigned :
    (ds : Bytes)
    → ds ≢ []
    → All IsDigit ds
    → digits_fit (half_word - 1) ds ≡ true
    → atoi ds ≡ atoi_digits 0 ds
unfolding atoi atoi_ok
atoi-unsigned [] e d f = absurd (e refl)
atoi-unsigned (c ∷ cs) e d f =
    let minus : (c == b'-') ≡ false = ground arith in
    let plus : (c == b'+') ≡ false = ground arith in rw (atoi, minus, plus, f) refl

pub atoi-format_int : (n : ℕ) → n < word → atoi (format_int n) ≡ some n
unfolding format_int atoi atoi_ok
atoi-format_int n h = elim (Bool-cases (is_negative n)) [
  | inl neg ↦
      rw
        (
          neg,
          atoi,
          digits_fit-decimal half_word (word - n) (ground arith) (ground arith),
          atoi_digits-decimal_20 (word - n) (ground arith),
        )
        (ap some (ground arith))
  | inr pos ↦ rw pos (
      atoi-unsigned (decimal 20 n) (decimal-ne-nil 19 n) (decimal-digits 20 n)
        (digits_fit-decimal (half_word - 1) n h (ground arith))
      ∙ atoi_digits-decimal_20 n h)
]

without_cr-append : (line : Bytes) → without_cr (line ++ b'\r' ∷ []) ≡ some line
unfolding without_cr
without_cr-append [] = refl
without_cr-append (c ∷ []) = refl
without_cr-append (c ∷ d ∷ cs) = rw (without_cr-append (d ∷ cs)) refl

next_line-crlf :
    (line rest : Bytes)
    → All NoNewline line
    → next_line (line ++ b'\r' ∷ b'\n' ∷ rest) ≡ ok (line, rest)
unfolding next_line
next_line-crlf line rest h =
    rw (next_line, split_newline-lem line rest h, without_cr-append line) refl

next_int :
    (n : ℕ) (rest : Bytes)
    → next_line (format_int n ++ b'\r' ∷ b'\n' ∷ rest) ≡ ok (format_int n, rest)
next_int n rest = next_line-crlf (format_int n) rest (format_int-NoNewline n)

read_full-crlf :
    (body rest : Bytes)
    → length body + 2 < half_word
    → read_full (length body) (body ++ b'\r' ∷ b'\n' ∷ rest) ≡ ok (bulk_string body, rest)
read_full-crlf body rest h =
    rw (take-append body (b'\r' ∷ b'\n' ∷ rest), drop-append 2 body (b'\r' ∷ b'\n' ∷ rest))
      (ground (arith, length-append body (b'\r' ∷ b'\n' ∷ rest)))

-- One lemma for each constructor.
module _ (f : ℕ) (rest : Bytes) where
  abbrev Reads : Value → Type 0
  Reads v = read_value_from (suc f) (render v rest) ≡ ok (v, rest)

  Reads-simple_string : (str : Bytes) → All NoNewline str → Reads (simple_string str)
  unfolding read_value_from
  Reads-simple_string str h = rw (next_line-crlf str rest h) refl

  Reads-error : (str : Bytes) → All NoNewline str → Reads (error str)
  unfolding read_value_from
  Reads-error str h = rw (next_line-crlf str rest h) refl

  Reads-integer : (n : ℕ) → n < word → Reads (integer n)
  unfolding read_value_from read_integer
  Reads-integer n h = rw (next_int n rest, atoi-format_int n h) refl

  Reads-nil_bulk_string : Reads nil_bulk_string
  unfolding read_value_from read_bulk_string next_line atoi
  Reads-nil_bulk_string = refl

  Reads-nil_array : Reads nil_array
  unfolding read_value_from read_array next_line atoi
  Reads-nil_array = refl

  Reads-bulk_string : (str : Bytes) → size (bulk_string str) < half_word → Reads (bulk_string str)
  unfolding read_value_from read_bulk_string
  Reads-bulk_string str s =
      let small : is_negative (length str) ≡ false = ground arith in
      rw
        (
          next_int (length str) (str ++ b'\r' ∷ b'\n' ∷ rest),
          atoi-format_int (length str) (omega arith),
          small,
        )
        (read_full-crlf str rest (omega arith))

  Reads-array :
      (vs : Values)
      → size (array vs) < half_word
      → read_values (read_value_from f) (count_values vs) (render_values vs rest) ≡ ok (vs, rest)
      → Reads (array vs)
  unfolding read_value_from read_array
  Reads-array vs s elements =
      let small : is_negative (count_values vs) ≡ false = ground (arith, count-le-size vs) in
      rw
        (
          next_int (count_values vs) (render_values vs rest),
          atoi-format_int (count_values vs) (omega (arith, count-le-size vs)),
          small,
          elements,
        )
        refl

mutual
  unfolding read_values

  read_value_from-render :
      (v : Value) (f : ℕ) (rest : Bytes)
      → IsEncodable v
      → depth v < f
      → size v < half_word
      → read_value_from f (render v rest) ≡ ok (v, rest)
  read_value_from-render (simple_string str) (suc f) rest h d s = Reads-simple_string f rest str h
  read_value_from-render (error str) (suc f) rest h d s = Reads-error f rest str h
  read_value_from-render (integer n) (suc f) rest h d s = Reads-integer f rest n h
  read_value_from-render nil_bulk_string (suc f) rest h d s = Reads-nil_bulk_string f rest
  read_value_from-render (bulk_string str) (suc f) rest h d s = Reads-bulk_string f rest str s
  read_value_from-render nil_array (suc f) rest h d s = Reads-nil_array f rest
  read_value_from-render (array vs) (suc f) rest h d s =
      Reads-array f rest vs s (read_values-render vs f rest h (omega arith) (omega arith))
  read_value_from-render nil_pointer (suc f) rest h d s = absurd h
  read_value_from-render v zero rest h d s = absurd (omega arith)

  read_values-render :
      (vs : Values) (f : ℕ) (rest : Bytes)
      → AllEncodable vs
      → depth_values vs < f
      → size_values vs < half_word
      → read_values (read_value_from f) (count_values vs) (render_values vs rest) ≡ ok (vs, rest)
  read_values-render nil f rest h d s = refl
  read_values-render (cons v vs) f rest h d s =
      rw
        (
          read_value_from-render v f (render_values vs rest) h.0 (omega arith) (omega arith),
          read_values-render vs f rest h.1 (omega arith) (omega arith),
        )
        refl

-- `ReadValue` on a stream that begins with an encoded value, with anything behind it, gives the
-- value back and takes just its encoding from the stream, if the value is encodable and the
-- encoding is shorter than 2^63 bytes.
pub read_value-encode_value :
    (v : Value) (rest : Bytes)
    → IsEncodable v
    → length (encode_value v) < half_word
    → read_value (encode_value v ++ rest) ≡ ok (v, rest)
unfolding read_value
read_value-encode_value v rest h s = rw (encode_value-render v rest) (
    read_value_from-render v (length (render v rest) + 1) rest h
      (omega (arith, length-render v rest, depth-le-size v)) (omega (arith, length-encode_value v)))

-- ===== src/Proto/Encode/Render.antt =====
-- The encoding of a value as one piece in front of what follows it, its length and its nesting.
use Prim.Native.Nat.{max}
use pluster.Prelude.{
  ℕ, suc, ◌+◌, ◌≤◌, ◌<◌, ◌≡◌, refl, ◌∙◌, ap, [], ◌∷◌, ◌++◌, append-nil, append_assoc, arith, Bytes,
  codes, All, length, length-append,
}
use pluster.Proto.Int64.{word, append_int, format_int}
use pluster.Proto.Int64.RoundTrip.{NoNewline}
use pluster.Proto.Value.{
  Value, simple_string, error, integer, bulk_string, nil_bulk_string, array, nil_array, nil_pointer,
  Values, nil, cons, count_values,
}
use pluster.Proto.Encode.{crlf, append_bulk, append_value, append_values, encode_value}

-- The encoding as one piece, in front of what follows it.
abbrev mutual
  pub render : Value → Bytes → Bytes
  render nil_pointer rest = codes "$-1\r\n" ++ rest
  render (simple_string str) rest = b'+' ∷ (str ++ b'\r' ∷ b'\n' ∷ rest)
  render (error str) rest = b'-' ∷ (str ++ b'\r' ∷ b'\n' ∷ rest)
  render (integer n) rest = b':' ∷ (format_int n ++ b'\r' ∷ b'\n' ∷ rest)
  render nil_bulk_string rest = codes "$-1\r\n" ++ rest
  render (bulk_string str) rest =
      b'$' ∷ (format_int (length str) ++ b'\r' ∷ b'\n' ∷ (str ++ b'\r' ∷ b'\n' ∷ rest))
  render nil_array rest = codes "*-1\r\n" ++ rest
  render (array vs) rest =
      b'*' ∷ (format_int (count_values vs) ++ b'\r' ∷ b'\n' ∷ render_values vs rest)

  pub render_values : Values → Bytes → Bytes
  render_values nil rest = rest
  render_values (cons v vs) rest = render v (render_values vs rest)

-- The length of the encoding.
abbrev mutual
  pub size : Value → ℕ
  size nil_pointer = 5
  size (simple_string str) = length str + 3
  size (error str) = length str + 3
  size (integer n) = length (format_int n) + 3
  size nil_bulk_string = 5
  size (bulk_string str) = length (format_int (length str)) + length str + 5
  size nil_array = 5
  size (array vs) = length (format_int (count_values vs)) + 3 + size_values vs

  pub size_values : Values → ℕ
  size_values nil = 0
  size_values (cons v vs) = size v + size_values vs

-- How deep arrays are nested.
abbrev mutual
  pub depth : Value → ℕ
  depth (array vs) = suc (depth_values vs)
  depth (simple_string str) = 0
  depth (error str) = 0
  depth (integer n) = 0
  depth (bulk_string str) = 0
  depth nil_bulk_string = 0
  depth nil_array = 0
  depth nil_pointer = 0

  pub depth_values : Values → ℕ
  depth_values nil = 0
  depth_values (cons v vs) = max (depth v) (depth_values vs)

-- The values that come back: text on a line holds no newline, an integer has 64 bits, and no
-- element is a nil pointer, which is written as a nil bulk string.
abbrev mutual
  pub IsEncodable : Value → Type 0
  IsEncodable (simple_string str) = All NoNewline str
  IsEncodable (error str) = All NoNewline str
  IsEncodable (integer n) = n < word
  IsEncodable (array vs) = AllEncodable vs
  IsEncodable (bulk_string str) = Unit {0}
  IsEncodable nil_bulk_string = Unit {0}
  IsEncodable nil_array = Unit {0}
  IsEncodable nil_pointer = ⊥

  pub AllEncodable : Values → Type 0
  AllEncodable nil = Unit {0}
  AllEncodable (cons v vs) = IsEncodable v × AllEncodable vs

mutual
  unfolding append_value append_bulk append_int

  pub append_value-render :
      (b rest : Bytes) (v : Value) → append_value b v ++ rest ≡ b ++ render v rest
  append_value-render b rest nil_pointer = simp append_assoc
  append_value-render b rest (simple_string str) = simp append_assoc
  append_value-render b rest (error str) = simp append_assoc
  append_value-render b rest (integer n) = simp append_assoc
  append_value-render b rest nil_bulk_string = simp append_assoc
  append_value-render b rest (bulk_string str) = simp append_assoc
  append_value-render b rest nil_array = simp append_assoc
  append_value-render b rest (array vs) =
      append_values-render (((b ++ b'*' ∷ []) ++ format_int (count_values vs)) ++ crlf) rest vs
      ∙ simp append_assoc

  pub append_values-render :
      (b rest : Bytes) (vs : Values) → append_values b vs ++ rest ≡ b ++ render_values vs rest
  append_values-render b rest nil = refl
  append_values-render b rest (cons v vs) =
      append_values-render (append_value b v) rest vs
      ∙ append_value-render b (render_values vs rest) v

pub encode_value-render : (v : Value) (rest : Bytes) → encode_value v ++ rest ≡ render v rest
unfolding encode_value
encode_value-render v rest = append_value-render [] rest v

mutual
  pub length-render : (v : Value) (rest : Bytes) → length (render v rest) ≡ size v + length rest
  length-render nil_pointer rest = omega arith
  length-render (simple_string str) rest = omega (arith, length-append str (b'\r' ∷ b'\n' ∷ rest))
  length-render (error str) rest = omega (arith, length-append str (b'\r' ∷ b'\n' ∷ rest))
  length-render (integer n) rest =
      omega (arith, length-append (format_int n) (b'\r' ∷ b'\n' ∷ rest))
  length-render nil_bulk_string rest = omega arith
  length-render (bulk_string str) rest = omega (
    arith,
    length-append (format_int (length str)) (b'\r' ∷ b'\n' ∷ (str ++ b'\r' ∷ b'\n' ∷ rest)),
    length-append str (b'\r' ∷ b'\n' ∷ rest),
  )
  length-render nil_array rest = omega arith
  length-render (array vs) rest = omega (
    arith,
    length-append (format_int (count_values vs)) (b'\r' ∷ b'\n' ∷ render_values vs rest),
    length-render_values vs rest,
  )

  length-render_values :
      (vs : Values) (rest : Bytes) → length (render_values vs rest) ≡ size_values vs + length rest
  length-render_values nil rest = omega arith
  length-render_values (cons v vs) rest =
      omega (arith, length-render v (render_values vs rest), length-render_values vs rest)

pub length-encode_value : (v : Value) → length (encode_value v) ≡ size v
length-encode_value v = omega (
  arith,
  ap length (append-nil (encode_value v)),
  ap length (encode_value-render v []),
  length-render v [],
)

mutual
  pub depth-le-size : (v : Value) → depth v ≤ size v
  depth-le-size nil_pointer = omega arith
  depth-le-size (simple_string str) = omega arith
  depth-le-size (error str) = omega arith
  depth-le-size (integer n) = omega arith
  depth-le-size nil_bulk_string = omega arith
  depth-le-size (bulk_string str) = omega arith
  depth-le-size nil_array = omega arith
  depth-le-size (array vs) = omega (arith, depth_values-le vs)

  depth_values-le : (vs : Values) → depth_values vs ≤ size_values vs
  depth_values-le nil = omega arith
  depth_values-le (cons v vs) = omega (arith, depth-le-size v, depth_values-le vs)

mutual
  size-pos : (v : Value) → 0 < size v
  size-pos nil_pointer = omega arith
  size-pos (simple_string str) = omega arith
  size-pos (error str) = omega arith
  size-pos (integer n) = omega arith
  size-pos nil_bulk_string = omega arith
  size-pos (bulk_string str) = omega arith
  size-pos nil_array = omega arith
  size-pos (array vs) = omega arith

  pub count-le-size : (vs : Values) → count_values vs ≤ size_values vs
  count-le-size nil = omega arith
  count-le-size (cons v vs) = omega (arith, size-pos v, count-le-size vs)

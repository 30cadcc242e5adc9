-- ===== src/Proto/Encode.antt =====
-- The encoders of pkg/proto/resp.go: `EncodeValue`, the `Encode…` functions, `EncodeCommandBytes`,
-- and the methods of `Writer`, as the bytes that they append. A `Writer` is taken to accept every
-- byte; its errors are those of the connection below it.
pub mod Render
pub mod RoundTrip
pub mod Command
pub mod Writer
use pluster.Prelude.{ℕ, List, [], ◌∷◌, ◌++◌, Bytes, codes, length}
use pluster.Proto.Int64.{append_int, format_int}
use pluster.Proto.Value.{
  Value, simple_string, error, integer, bulk_string, nil_bulk_string, array, nil_array, nil_pointer,
  Values, nil, cons, count_values,
}

abbrev pub crlf : Bytes
crlf = b'\r' ∷ b'\n' ∷ []

-- `appendBulk`.
unfoldable pub append_bulk : Bytes → Bytes → Bytes
unfolding append_int
append_bulk b str =
    let b1 = b ++ b'$' ∷ [] in
    let b2 = append_int b1 (length str) in let b3 = b2 ++ crlf in let b4 = b3 ++ str in b4 ++ crlf

-- `appendValue`, and its loop over the elements of an array.
unfoldable mutual
  unfolding append_bulk

  pub append_value : Bytes → Value → Bytes
  append_value b nil_pointer = b ++ codes "$-1\r\n"
  append_value b (simple_string str) = ((b ++ b'+' ∷ []) ++ str) ++ crlf
  append_value b (error str) = ((b ++ b'-' ∷ []) ++ str) ++ crlf
  append_value b (integer n) = append_int (b ++ b':' ∷ []) n ++ crlf
  append_value b nil_bulk_string = b ++ codes "$-1\r\n"
  append_value b (bulk_string str) = append_bulk b str
  append_value b nil_array = b ++ codes "*-1\r\n"
  append_value b (array vs) =
      append_values (append_int (b ++ b'*' ∷ []) (count_values vs) ++ crlf) vs

  pub append_values : Bytes → Values → Bytes
  append_values b nil = b
  append_values b (cons v vs) = append_values (append_value b v) vs

-- `EncodeValue`.
unfoldable pub encode_value : Value → Bytes
unfolding append_value
encode_value v = append_value [] v

-- `EncodeSimpleString`, `EncodeError`, `EncodeInteger`, `EncodeBulkString`.
unfoldable pub encode_simple_string : Bytes → Bytes
encode_simple_string s = (b'+' ∷ [] ++ s) ++ crlf

unfoldable pub encode_error : Bytes → Bytes
encode_error msg = (b'-' ∷ [] ++ msg) ++ crlf

unfoldable pub encode_integer : ℕ → Bytes
unfolding append_int
encode_integer n = append_int (b':' ∷ []) n ++ crlf

unfoldable pub encode_bulk_string : Bytes → Bytes
unfolding append_bulk
encode_bulk_string str = append_bulk [] str

-- The loop of `EncodeCommandBytes`.
unfoldable pub append_bulks : Bytes → List Bytes → Bytes
unfolding append_bulk
append_bulks b [] = b
append_bulks b (a ∷ args) = append_bulks (append_bulk b a) args

-- `EncodeCommandBytes`.
unfoldable pub encode_command_bytes : List Bytes → Bytes
unfolding append_bulks append_int
encode_command_bytes args = append_bulks (append_int (b'*' ∷ []) (length args) ++ crlf) args

-- `WriteBulkString`, onto what the writer holds.
unfoldable pub write_bulk_string : Bytes → Bytes → Bytes
unfolding format_int
write_bulk_string w str =
    let w1 = w ++ b'$' ∷ [] in
    let w2 = w1 ++ format_int (length str) in
    let w3 = w2 ++ crlf in let w4 = w3 ++ str in w4 ++ crlf

-- `WriteSimpleString`, `WriteError`, `WriteInteger`.
abbrev pub write_text : ℕ → Bytes → Bytes → Bytes
write_text mark w s = ((w ++ mark ∷ []) ++ s) ++ crlf

-- `WriteValue` and `WriteArray`.
unfoldable mutual
  unfolding write_bulk_string

  pub write_value : Bytes → Value → Bytes
  write_value w nil_pointer = w ++ codes "$-1\r\n"
  write_value w (simple_string str) = write_text b'+' w str
  write_value w (error str) = write_text b'-' w str
  write_value w (integer n) = write_text b':' w (format_int n)
  write_value w nil_bulk_string = w ++ codes "$-1\r\n"
  write_value w (bulk_string str) = write_bulk_string w str
  write_value w nil_array = w ++ codes "*-1\r\n"
  write_value w (array vs) =
      write_array (((w ++ b'*' ∷ []) ++ format_int (count_values vs)) ++ crlf) vs

  pub write_array : Bytes → Values → Bytes
  write_array w nil = w
  write_array w (cons v vs) = write_array (write_value w v) vs

-- `WriteCommandBytes`, and `WriteCommand`, which differs in the type of its arguments alone.
unfoldable pub write_bulk_strings : Bytes → List Bytes → Bytes
unfolding write_bulk_string
write_bulk_strings w [] = w
write_bulk_strings w (a ∷ args) = write_bulk_strings (write_bulk_string w a) args

unfoldable pub write_command_bytes : Bytes → List Bytes → Bytes
unfolding write_bulk_strings
write_command_bytes w args =
    write_bulk_strings (((w ++ b'*' ∷ []) ++ format_int (length args)) ++ crlf) args

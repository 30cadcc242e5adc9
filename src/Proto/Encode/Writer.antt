-- ===== src/Proto/Encode/Writer.antt =====
-- The buffered `Writer` against the slice encoders.
use pluster.Prelude.{◌≡◌, refl, sym, ◌∙◌, ap, List, [], ◌∷◌, ◌++◌, append-nil, Bytes}
use pluster.Proto.Value.{
  Value, simple_string, error, integer, bulk_string, nil_bulk_string, array, nil_array, nil_pointer,
  Values, nil, cons,
}
use pluster.Proto.Encode.{
  append_value, append_values, encode_value, encode_command_bytes, write_value, write_array,
  write_bulk_string, write_bulk_strings, write_command_bytes,
}
use pluster.Proto.Int64.{format_int}
use pluster.Proto.Parse.{bulk_strings}
use pluster.Proto.Encode.{crlf}
use pluster.Proto.Encode.Render.{append_value-render, encode_value-render}
use pluster.Proto.Encode.Command.{count_values-bulk_strings, encode_command_bytes-array}

mutual
  unfolding append_value write_value

  write_value-append_value : (w : Bytes) (v : Value) → write_value w v ≡ append_value w v
  write_value-append_value w nil_pointer = refl
  write_value-append_value w (simple_string str) = refl
  write_value-append_value w (error str) = refl
  write_value-append_value w (integer n) = refl
  write_value-append_value w nil_bulk_string = refl
  write_value-append_value w (bulk_string str) = refl
  write_value-append_value w nil_array = refl
  write_value-append_value w (array vs) = write_array-append_values _ vs

  write_array-append_values : (w : Bytes) (vs : Values) → write_array w vs ≡ append_values w vs
  write_array-append_values w nil = refl
  write_array-append_values w (cons v vs) =
      write_array-append_values (write_value w v) vs
      ∙ ap (λ b. append_values b vs) (write_value-append_value w v)

append_value-append : (b : Bytes) (v : Value) → append_value b v ≡ b ++ encode_value v
append_value-append b v =
    sym (append-nil (append_value b v))
    ∙ append_value-render b [] v
    ∙ ap (◌++◌ b) (sym (encode_value-render v []) ∙ append-nil (encode_value v))

-- `WriteValue` adds to what the writer holds exactly the bytes of `EncodeValue`.
pub write_value-encode_value : (w : Bytes) (v : Value) → write_value w v ≡ w ++ encode_value v
write_value-encode_value w v = write_value-append_value w v ∙ append_value-append w v

write_bulk_strings-write_array :
    (w : Bytes) (args : List Bytes) → write_bulk_strings w args ≡ write_array w (bulk_strings args)
unfolding write_bulk_strings write_value
write_bulk_strings-write_array w [] = refl
write_bulk_strings-write_array w (a ∷ args) =
    write_bulk_strings-write_array (write_bulk_string w a) args

-- `WriteCommandBytes` adds exactly the bytes of `EncodeCommandBytes`, which are those of the array
-- of the arguments as bulk strings.
pub write_command_bytes-encode :
    (w : Bytes) (args : List Bytes)
    → (write_command_bytes w args ≡ w ++ encode_command_bytes args)
      × (encode_command_bytes args ≡ encode_value (array (bulk_strings args)))
write_command_bytes-encode w args = (
  as_value
      ∙ write_value-encode_value w (array (bulk_strings args))
      ∙ ap (◌++◌ w) (sym (encode_command_bytes-array args)),
  encode_command_bytes-array args,
)
  where
    as_value : write_command_bytes w args ≡ write_value w (array (bulk_strings args))
    as_value =
        unfold write_command_bytes write_value in
        write_bulk_strings-write_array _ args
        ∙ ap (λ n. write_array (((w ++ b'*' ∷ []) ++ format_int n) ++ crlf) (bulk_strings args))
            (sym (count_values-bulk_strings args))

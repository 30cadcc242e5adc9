-- ===== src/Proto/Encode/Command.antt =====
-- A command is the encoding of an array of bulk strings.
use pluster.Prelude.{◌≡◌, refl, sym, ◌∙◌, ap, suc, List, [], ◌∷◌, ◌++◌, Bytes, length}
use pluster.Proto.Int64.{append_int}
use pluster.Proto.Value.{array, count_values}
use pluster.Proto.Parse.{bulk_strings}
use pluster.Proto.Encode.{
  crlf, append_bulk, append_bulks, append_value, append_values, encode_value, encode_command_bytes,
}
use pluster.Proto.Encode.Render.{render, encode_value-render}

pub count_values-bulk_strings : (args : List Bytes) → count_values (bulk_strings args) ≡ length args
count_values-bulk_strings [] = refl
count_values-bulk_strings (a ∷ args) = ap suc (count_values-bulk_strings args)

pub append_bulks-append_values :
    (b : Bytes) (args : List Bytes) → append_bulks b args ≡ append_values b (bulk_strings args)
unfolding append_bulks append_value
append_bulks-append_values b [] = refl
append_bulks-append_values b (a ∷ args) = append_bulks-append_values (append_bulk b a) args

pub encode_command_bytes-array :
    (args : List Bytes) → encode_command_bytes args ≡ encode_value (array (bulk_strings args))
unfolding encode_command_bytes encode_value
encode_command_bytes-array args =
    append_bulks-append_values _ args
    ∙ ap (λ n. append_values (append_int (b'*' ∷ []) n ++ crlf) (bulk_strings args))
        (sym (count_values-bulk_strings args))

pub encode_command_bytes-render :
    (args : List Bytes) (rest : Bytes)
    → encode_command_bytes args ++ rest ≡ render (array (bulk_strings args)) rest
encode_command_bytes-render args rest =
    rw (encode_command_bytes-array args) (encode_value-render (array (bulk_strings args)) rest)

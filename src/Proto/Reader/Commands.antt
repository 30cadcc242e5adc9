-- ===== src/Proto/Reader/Commands.antt =====
-- `ReadRequest` of pkg/proto/resp.go: a command from a stream.
use pluster.Prelude.{
  ◌<◌, ◌≡◌, refl, sym, ◌∙◌, ap, List, [], ◌∷◌, ◌++◌, append-nil, arith, Bytes, length,
}
use pluster.Proto.Outcome.{Outcome, ok, invalid, ◌>>=◌}
use pluster.Proto.Int64.{half_word}
use pluster.Proto.Value.{Value, simple_string, error, bulk_string, array, Values, nil, cons}
use pluster.Proto.Parse.{bulk_strings}
use pluster.Proto.Encode.{encode_value, encode_command_bytes}
use pluster.Proto.Encode.Command.{encode_command_bytes-render}
use pluster.Proto.Encode.Render.{AllEncodable, encode_value-render}
use pluster.Proto.Request.{Request, upper}
use pluster.Proto.Reader.{read_value}
use pluster.Proto.Reader.RoundTrip.{read_value-encode_value}

-- An argument: `elem.Str`, and nil for a nil value.
abbrev pub arg_of : Value → Bytes
arg_of (simple_string str) = str
arg_of (error str) = str
arg_of (bulk_string str) = str
arg_of _ = []

abbrev pub args_of : Values → List Bytes
args_of nil = []
args_of (cons v vs) = arg_of v ∷ args_of vs

abbrev pub request_of : Value → Bytes → Outcome (Request × Bytes)
request_of (array (cons v vs)) after =
    ok (record { args = upper (arg_of v) ∷ args_of vs; raw = []; cmd = upper (arg_of v) }, after)
request_of _ after = invalid

-- `ReadRequest`.
unfoldable pub read_request : Bytes → Outcome (Request × Bytes)
unfolding read_value upper
read_request rest = do (v, after) ← read_value rest; request_of v after

args_of-bulk_strings : (args : List Bytes) → args_of (bulk_strings args) ≡ args
args_of-bulk_strings [] = refl
args_of-bulk_strings (a ∷ args) = ap (λ as'. a ∷ as') (args_of-bulk_strings args)

bulk_strings-AllEncodable : (args : List Bytes) → AllEncodable (bulk_strings args)
bulk_strings-AllEncodable [] = tt
bulk_strings-AllEncodable (a ∷ args) = (tt, bulk_strings-AllEncodable args)

encode_command_bytes-encode_value :
    (args : List Bytes) (rest : Bytes)
    → encode_command_bytes args ++ rest ≡ encode_value (array (bulk_strings args)) ++ rest
encode_command_bytes-encode_value args rest =
    encode_command_bytes-render args rest
    ∙ sym (encode_value-render (array (bulk_strings args)) rest)

-- `ReadRequest` on a stream that begins with an encoded command of at least one word and less than
-- 2^63 bytes takes the bytes of the command, and gives the arguments and the name that
-- `ParseRequest` gives, with the first argument in upper case.
pub read_request-encode :
    (name : Bytes) (args : List Bytes) (rest : Bytes)
    → length (encode_command_bytes (name ∷ args)) < half_word
    → read_request (encode_command_bytes (name ∷ args) ++ rest)
      ≡ ok (record { args = upper name ∷ args; raw = []; cmd = upper name }, rest)
unfolding read_request
read_request-encode name args rest s =
    let same = encode_command_bytes-encode_value (name ∷ args) in
    let short : length (encode_value (array (bulk_strings (name ∷ args)))) < half_word = omega (
      arith,
      ap length (append-nil (encode_command_bytes (name ∷ args))),
      ap length (append-nil (encode_value (array (bulk_strings (name ∷ args))))),
      ap length (same []),
    ) in
    rw
      (
        same rest,
        read_value-encode_value (array (bulk_strings (name ∷ args))) rest
            (bulk_strings-AllEncodable (name ∷ args)) short,
        args_of-bulk_strings args,
      )
      refl

-- ===== src/Proto/Request/RoundTrip.antt =====
-- Commands that arrive as arrays of bulk strings are read back, and what goes on to a backend is
-- the same command with its name in upper case.
use pluster.Prelude.{
  ℕ, suc, ◌+◌, ◌<◌, ◌≡◌, refl, sym, ◌∙◌, ap, some, ◌≤◌, ◌||◌, ◌==◌, false, List, [], ◌∷◌, ◌++◌, map,
  append-nil, append_assoc, arith, Bytes, length, length-append, take,
}
use pluster.Proto.Outcome.{ok}
use pluster.Proto.Int64.{half_word, format_int, is_negative}
use pluster.Proto.Int64.RoundTrip.{parse_int_bytes-format_int}
use pluster.Proto.Encode.RoundTrip.{read_int}
use pluster.Proto.Value.{array, bulk_string}
use pluster.Proto.Line.{read_body-crlf}
use pluster.Proto.Parse.{bulk_strings}
use pluster.Proto.Encode.{encode_command_bytes}
use pluster.Proto.Encode.Render.{render, render_values, size, size_values, length-render}
use pluster.Proto.Encode.Command.{count_values-bulk_strings, encode_command_bytes-render}
use pluster.Proto.Request.{Arg, upper, upper_at, parse_args, parse_request_direct, parse_request}

-- The arguments with their places, the first at position `pos`.
abbrev placed : ℕ → List Bytes → List Arg
placed pos [] = []
placed pos (a ∷ others) =
    record { start = pos + 1 + length (format_int (length a)) + 2; bytes = a }
    ∷ placed (pos + size (bulk_string a)) others

parse_args-render :
    (args : List Bytes) (pos : ℕ) (rest : Bytes)
    → pos + size_values (bulk_strings args) < half_word
    → parse_args (length args) pos (render_values (bulk_strings args) rest)
      ≡ ok (placed pos args, pos + size_values (bulk_strings args))
unfolding parse_args
parse_args-render [] pos rest s = ap (λ e. ok ([], e)) (omega arith)
parse_args-render (a ∷ others) pos rest s =
    let after = render_values (bulk_strings others) rest in
    let place = pos + 1 + length (format_int (length a)) + 2 in
    let e1 : place + length a + 2 ≡ pos + size (bulk_string a) = omega arith in
    rw
      (
        read_int (pos + 1) (length a) (a ++ b'\r' ∷ b'\n' ∷ after),
        parse_int_bytes-format_int (length a) (omega arith),
        small,
        read_body-crlf place a after (omega arith),
        e1,
        parse_args-render others (pos + size (bulk_string a)) rest (omega arith),
      )
      (ap (λ e. ok (placed pos (a ∷ others), e)) (omega arith))
  where
    small : is_negative (length a) ≡ false
    small = ground arith

take-length-append : (xs ys : Bytes) → take (length xs) (xs ++ ys) ≡ xs
take-length-append [] ys = refl
take-length-append (x ∷ xs) ys = ap (◌∷◌ x) (take-length-append xs ys)

upper_at-append :
    (xs ys zs : Bytes)
    → upper_at (length xs) (length ys) (xs ++ (ys ++ zs)) ≡ xs ++ (upper ys ++ zs)
unfolding upper_at
upper_at-append xs [] zs = refl
upper_at-append [] (y ∷ ys) zs = rw (upper_at-append [] ys zs)
upper_at-append (x ∷ xs) (y ∷ ys) zs = ap (◌∷◌ x) (upper_at-append xs (y ∷ ys) zs)

length-upper : (a : Bytes) → length (upper a) ≡ length a
unfolding upper
length-upper [] = refl
length-upper (c ∷ cs) = ap suc (length-upper cs)

map_bytes-placed : (args : List Bytes) (pos : ℕ) → map (λ a. a.bytes) (placed pos args) ≡ args
map_bytes-placed [] pos = refl
map_bytes-placed (a ∷ others) pos = ap (◌∷◌ a) (map_bytes-placed others _)

-- Where the first argument of a command starts.
abbrev name_start : Bytes → List Bytes → ℕ
name_start name args =
    1 + length (format_int (length (name ∷ args))) + 2 + 1 + length (format_int (length name)) + 2

abbrev command_size : List Bytes → ℕ
command_size args = length (format_int (length args)) + 3 + size_values (bulk_strings args)

length-le-size_values : (args : List Bytes) → length args ≤ size_values (bulk_strings args)
length-le-size_values [] = omega arith
length-le-size_values (a ∷ others) = omega (arith, length-le-size_values others)

parse_request_direct-render :
    (name : Bytes) (args : List Bytes) (rest : Bytes)
    → command_size (name ∷ args) < half_word
    → parse_request_direct (render (array (bulk_strings (name ∷ args))) rest)
      ≡ ok (record {
        args = name ∷ args;
        taken = command_size (name ∷ args);
        name_at = some (name_start name args);
      })
unfolding parse_request_direct
parse_request_direct-render name args rest s =
    let n = length (name ∷ args) in
    rw
      (
        count_values-bulk_strings args,
        read_int 1 n (render_values (bulk_strings (name ∷ args)) rest),
        parse_int_bytes-format_int n (omega (arith, length-le-size_values args)),
        counted,
        parse_args-render (name ∷ args) (1 + length (format_int n) + 2) rest (omega arith),
      )
      (rw map_bytes-placed (
        ap
          (λ t.
            ok (record { args = name ∷ args; taken = t; name_at = some (name_start name args) }))
          (omega arith)))
  where
    counted : (is_negative (length (name ∷ args)) || length (name ∷ args) == 0) ≡ false
    counted = ground (arith, length-le-size_values args)

-- What stands before the first argument of a command, and behind it.
abbrev prefix : ℕ → ℕ → Bytes
prefix count len =
    b'*' ∷ (format_int count ++ b'\r' ∷ b'\n' ∷ b'$' ∷ (format_int len ++ b'\r' ∷ b'\n' ∷ []))

abbrev suffix : List Bytes → Bytes
suffix args = b'\r' ∷ b'\n' ∷ render_values (bulk_strings args) []

encode_command_bytes-prefix :
    (name : Bytes) (args : List Bytes)
    → encode_command_bytes (name ∷ args)
      ≡ prefix (length (name ∷ args)) (length name) ++ (name ++ suffix args)
encode_command_bytes-prefix name args =
    sym (append-nil (encode_command_bytes (name ∷ args)))
    ∙ encode_command_bytes-render (name ∷ args) []
    ∙ rw count_values-bulk_strings (simp append_assoc)

length-prefix :
    (name : Bytes) (args : List Bytes)
    → length (prefix (length (name ∷ args)) (length name)) ≡ name_start name args
length-prefix name args = omega (
  arith,
  length-append (format_int (length (name ∷ args)))
      (b'\r' ∷ b'\n' ∷ b'$' ∷ (format_int (length name) ++ b'\r' ∷ b'\n' ∷ [])),
  length-append (format_int (length name)) (b'\r' ∷ b'\n' ∷ []),
)

upper_at-encode :
    (name : Bytes) (args : List Bytes)
    → upper_at (name_start name args) (length name) (encode_command_bytes (name ∷ args))
      ≡ encode_command_bytes (upper name ∷ args)
upper_at-encode name args = rw (
  encode_command_bytes-prefix name args,
  encode_command_bytes-prefix (upper name) args,
  length-upper name,
  ← length-prefix name args,
  upper_at-append (prefix (length (name ∷ args)) (length name)) name (suffix args),
)

length-encode_command_bytes :
    (args : List Bytes) → length (encode_command_bytes args) ≡ command_size args
length-encode_command_bytes args = omega (
  arith,
  ap length (append-nil (encode_command_bytes args)),
  ap length (encode_command_bytes-render args []),
  length-render (array (bulk_strings args)) [],
  ap (λ (n : ℕ). length (format_int n)) (count_values-bulk_strings args),
)

-- `ParseRequest` on an encoded command of at least one word and less than 2^63 bytes, with
-- anything behind it, takes the bytes of the command. The arguments come back with the first in
-- upper case, which is also the name, and `Raw` is the encoding of those arguments.
pub parse_request-encode :
    (name : Bytes) (args : List Bytes) (rest : Bytes)
    → length (encode_command_bytes (name ∷ args)) < half_word
    → parse_request (encode_command_bytes (name ∷ args) ++ rest)
      ≡ ok (
        record {
          args = upper name ∷ args;
          raw = encode_command_bytes (upper name ∷ args);
          cmd = upper name;
        },
        length (encode_command_bytes (name ∷ args)),
      )
unfolding parse_request
parse_request-encode name args rest s = rw (
  direct,
  ← length-encode_command_bytes (name ∷ args),
  take-length-append (encode_command_bytes (name ∷ args)) rest,
  upper_at-encode name args,
)
  where
    direct :
        parse_request_direct (encode_command_bytes (name ∷ args) ++ rest)
        ≡ ok (record {
          args = name ∷ args;
          taken = command_size (name ∷ args);
          name_at = some (name_start name args);
        })
    direct = rw (encode_command_bytes-render (name ∷ args) rest) (
        parse_request_direct-render name args rest
          (omega (arith, length-encode_command_bytes (name ∷ args))))

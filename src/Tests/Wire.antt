-- ===== src/Tests/Wire.antt =====
-- Values and requests of pkg/proto/resp.go.
use pluster.Prelude.{◌<◌, ◌≤◌, ◌≡◌, ◌≢◌, Bytes, refl, [], ◌∷◌, ◌++◌, codes, length, arith}
use pluster.Proto.Outcome.{ok, invalid, stuck}
use pluster.Proto.Int64.{half_word, append_int, decimal, format_int}
use pluster.Proto.Value.{Value, simple_string, error, nil_bulk_string, array, nil, cons}
use pluster.Proto.Parse.{parse_value, parse_value_at}
use pluster.Proto.Line.{read_line, split_newline, drop_cr}
use pluster.Proto.Encode.{
  encode_value, encode_command_bytes, append_value, append_bulk, append_bulks,
}
use pluster.Proto.Encode.RoundTrip.{parse_value-encode_value}
use pluster.Proto.Reader.{read_value, next_line, without_cr}
use pluster.Proto.Reader.RoundTrip.{read_value-encode_value}
use pluster.Proto.Reader.Total.{read_value_total}
use pluster.Proto.Scan.{kind_none, scan_value_at, Scanned, scan_value}
use pluster.Proto.Scan.Agree.{scan_value-parse_value, Classifies}
use pluster.Proto.Request.{parse_request, upper}
use pluster.Proto.Request.RoundTrip.{parse_request-encode}

-- An array with an error in it.
abbrev reply : Value
reply = array (cons (error (codes "E")) (cons nil_bulk_string nil))

encoded_reply : encode_value reply ≡ codes "*2\r\n-E\r\n$-1\r\n"
unfolding encode_value append_value append_bulk append_int format_int decimal
encoded_reply = refl

short : length (encode_value reply) < half_word
short = rw encoded_reply (ground arith)

parse_value-encode_value_example :
    parse_value (encode_value reply ++ codes "x") ≡ ok (reply, length (encode_value reply))
parse_value-encode_value_example =
    parse_value-encode_value reply (codes "x") ((ground arith, tt), (tt, tt)) short

parsed : parse_value (codes "-MOVED 1 a:1\r\n") ≡ ok (error (codes "MOVED 1 a:1"), 14)
unfolding parse_value parse_value_at read_line split_newline drop_cr
parsed = refl

scan_value-parse_value_example :
    (s : Scanned) × (scan_value (codes "-MOVED 1 a:1\r\n") ≡ ok s)
    × (s.end ≡ 14)
    × Classifies s.kind (error (codes "MOVED 1 a:1"))
scan_value-parse_value_example =
    scan_value-parse_value (codes "-MOVED 1 a:1\r\n") (error (codes "MOVED 1 a:1")) 14 parsed

encoded_command :
    encode_command_bytes (codes "get" ∷ codes "k" ∷ []) ≡ codes "*2\r\n$3\r\nget\r\n$1\r\nk\r\n"
unfolding encode_command_bytes append_bulks append_bulk append_int format_int decimal
encoded_command = refl

short_command : length (encode_command_bytes (codes "get" ∷ codes "k" ∷ [])) < half_word
short_command = rw encoded_command (ground arith)

parse_request-encode_example :
    parse_request (encode_command_bytes (codes "get" ∷ codes "k" ∷ []) ++ codes "*")
    ≡ ok (
      record {
        args = upper (codes "get") ∷ codes "k" ∷ [];
        raw = encode_command_bytes (upper (codes "get") ∷ codes "k" ∷ []);
        cmd = upper (codes "get");
      },
      length (encode_command_bytes (codes "get" ∷ codes "k" ∷ [])),
    )
parse_request-encode_example =
    parse_request-encode (codes "get") (codes "k" ∷ []) (codes "*") short_command

scanned :
    scan_value (codes ":1\r\n+")
    ≡ ok (record { end = 4; kind = kind_none; err_msg = []; after = codes "+" })
unfolding scan_value scan_value_at read_line split_newline drop_cr
scanned = refl

read_value-encode_value_example :
    read_value (encode_value reply ++ codes "+x") ≡ ok (reply, codes "+x")
read_value-encode_value_example =
    read_value-encode_value reply (codes "+x") ((ground arith, tt), (tt, tt)) short

-- A line that the stream breaks off.
read_value_total_example :
    (read_value (codes "*2\r\n+a\r\n+b") ≢ stuck)
    × ((v : Value) (after : Bytes)
        → read_value (codes "*2\r\n+a\r\n+b") ≡ ok (v, after)
        → length after ≤ length (codes "*2\r\n+a\r\n+b"))
read_value_total_example = read_value_total (codes "*2\r\n+a\r\n+b")

-- A bare "\n" ends a line for `ParseValue`, but not for `ReadValue`.
bare_newline : read_value (codes "+a\n") ≡ invalid
unfolding read_value next_line without_cr split_newline
bare_newline = refl

bare_newline_parsed : parse_value (codes "+a\n") ≡ ok (simple_string (codes "a"), 3)
unfolding parse_value parse_value_at read_line split_newline drop_cr
bare_newline_parsed = refl

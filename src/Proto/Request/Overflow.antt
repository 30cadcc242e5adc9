-- ===== src/Proto/Request/Overflow.antt =====
-- A length near 2^63 in a command from a client.
use pluster.Prelude.{
  ℕ, zero, suc, ◌+◌, ◌<◌, ◌≤◌, ◌≡◌, false, ◌||◌, ◌==◌, ◌∷◌, ◌++◌, arith, Bytes, length,
}
use pluster.Proto.Outcome.{panicked}
use pluster.Proto.Int64.{half_word, format_int, is_negative}
use pluster.Proto.Int64.RoundTrip.{parse_int_bytes-format_int}
use pluster.Proto.Line.{read_body}
use pluster.Proto.Encode.RoundTrip.{read_int}
use pluster.Proto.Request.{parse_args, parse_request}

-- "*count\r\n$len\r\n", in front of `rest`.
abbrev pub announce : ℕ → ℕ → Bytes → Bytes
announce count len rest =
    b'*' ∷ (format_int count ++ b'\r' ∷ b'\n' ∷ b'$' ∷ (format_int len ++ b'\r' ∷ b'\n' ∷ rest))

-- Where the announced bytes would start.
abbrev pub announced_at : ℕ → ℕ → ℕ
announced_at count len = length (format_int count) + length (format_int len) + 6

parse_args-panicked :
    (n pos len : ℕ) (rest : Bytes)
    → len < half_word
    → half_word ≤ pos + 1 + length (format_int len) + 2 + len + 2
    → parse_args (suc n) pos (b'$' ∷ (format_int len ++ b'\r' ∷ b'\n' ∷ rest)) ≡ panicked
unfolding parse_args read_body
parse_args-panicked n pos len rest small big =
    rw (read_int (pos + 1) len rest, parse_int_bytes-format_int len (omega arith)) (ground arith)

-- A client that announces one argument or more, the first of `len` bytes, so that the end of that
-- argument and its "\r\n" lies at 2^63 or beyond, makes `ParseRequest` panic, whatever it sends next.
pub parse_request_overflow :
    (count len : ℕ) (rest : Bytes)
    → 0 < count
    → count < half_word
    → len < half_word
    → half_word ≤ announced_at count len + len + 2
    → parse_request (announce count len rest) ≡ panicked
unfolding parse_request
parse_request_overflow zero len rest pos few small big = absurd (omega arith)
parse_request_overflow (suc n) len rest pos few small big =
    let at = 1 + length (format_int (suc n)) + 2 in
    rw (
      read_int 1 (suc n) (b'$' ∷ (format_int len ++ b'\r' ∷ b'\n' ∷ rest)),
      parse_int_bytes-format_int (suc n) (omega arith),
      counted,
      parse_args-panicked n at len rest small (omega arith),
    )
  where
    counted : (is_negative (suc n) || suc n == 0) ≡ false
    counted = ground arith

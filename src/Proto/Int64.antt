-- ===== src/Proto/Int64.antt =====
-- `int64` as its bit pattern, a number below 2^64; the patterns from 2^63 on are the negative
-- integers. The decimal forms: `parseIntBytes` and `appendInt` of pkg/proto/resp.go.
pub mod RoundTrip
use pluster.Prelude.{
  ℕ, zero, suc, ◌+◌, ◌-◌, ◌*◌, ◌/◌, ◌%◌, Bool, true, false, ◌||◌, Option, none, some, List, [], ◌∷◌,
  ◌++◌, leb, ltb, ◌==◌, if◌then◌else◌, Bytes,
}
use mathlib.Core.Option

-- 2^64 and 2^63.
abbrev pub word : ℕ
word = 18446744073709551616

abbrev pub half_word : ℕ
half_word = 9223372036854775808

-- `n < 0`.
abbrev pub is_negative : ℕ → Bool
is_negative n = leb half_word n

-- `-n` and `a + b`, which wrap around.
abbrev pub neg64 : ℕ → ℕ
neg64 n = (word - n) % word

abbrev pub add64 : ℕ → ℕ → ℕ
add64 a b = (a + b) % word

-- `a < b`.
abbrev pub lt64 : ℕ → ℕ → Bool
lt64 a b =
    if is_negative a
    then (if is_negative b then ltb a b else true)
    else (if is_negative b then false else ltb a b)

-- The loop of `parseIntBytes`; nothing guards `n*10 + int64(c-'0')` against overflow.
unfoldable pub parse_digits : ℕ → Bytes → Option ℕ
parse_digits n [] = some n
parse_digits n (c ∷ cs) =
    if ltb c b'0' || ltb b'9' c then none else parse_digits ((n * 10 + (c - b'0')) % word) cs

-- `parseIntBytes`; a lone sign reads as 0.
unfoldable pub parse_int_bytes : Bytes → Option ℕ
unfolding parse_digits
parse_int_bytes [] = none
parse_int_bytes (c ∷ cs) =
    if c == b'-' then Option.map neg64 (parse_digits 0 cs) else parse_digits 0 (c ∷ cs)

-- The decimal digits of `n`, at most as many as the first argument says.
unfoldable pub decimal : ℕ → ℕ → Bytes
decimal zero n = []
decimal (suc f) n =
    let high = decimal f (n / 10) in (if ltb n 10 then [] else high) ++ (b'0' + n % 10) ∷ []

-- `strconv.AppendInt(nil, n, 10)`: twenty digits are enough for 64 bits.
unfoldable pub format_int : ℕ → Bytes
unfolding decimal
format_int n = if is_negative n then b'-' ∷ decimal 20 (word - n) else decimal 20 n

-- `appendInt`.
unfoldable pub append_int : Bytes → ℕ → Bytes
unfolding format_int
append_int b n = b ++ format_int n

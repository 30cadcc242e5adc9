-- ===== src/Proto/Int64/RoundTrip.antt =====
-- Reading back what `appendInt` writes.
use mathlib.Core.List.{concat-ne-nil}
use pluster.Prelude.{
  ℕ, zero, suc, ◌+◌, ◌-◌, ◌*◌, ◌/◌, ◌%◌, ◌<◌, ◌≤◌, ◌≡◌, ◌≢◌, refl, sym, ◌∙◌, ap, true, some, [],
  ◌∷◌, ◌++◌, append-nil, append_assoc, arith, inl, inr, ltb, Bool-cases, All, Bytes,
}
use pluster.Proto.Int64.{word, is_negative, parse_digits, parse_int_bytes, decimal, format_int}

abbrev pow10 : ℕ → ℕ
pow10 zero = 1
pow10 (suc k) = 10 * pow10 k

parse_digits-digit :
    (m d : ℕ) (rest : Bytes)
    → d < 10
    → parse_digits m ((b'0' + d) ∷ rest) ≡ parse_digits ((m * 10 + d) % word) rest
unfolding parse_digits
parse_digits-digit m d rest h =
    let same : b'0' + d - b'0' ≡ d = omega arith in rw same (ground arith)

parse_digits-decimal :
    (f n : ℕ) (rest : Bytes)
    → n < pow10 f
    → parse_digits 0 (decimal f n ++ rest) ≡ parse_digits (n % word) rest
unfolding decimal
parse_digits-decimal zero n rest h = let e : n ≡ 0 = omega arith in rw e
parse_digits-decimal (suc f) n rest h = elim (Bool-cases (ltb n 10)) [
  | inl one ↦
      rw one (
        parse_digits-digit 0 (n % 10) rest (omega arith)
        ∙ ap (λ m. parse_digits m rest) (small one))
  | inr more ↦
      rw (more, append_assoc (decimal f (n / 10)) ((b'0' + n % 10) ∷ []) rest)
        (parse_digits-decimal f (n / 10) _ (omega arith)
          ∙ parse_digits-digit (n / 10 % word) (n % 10) rest (omega arith)
          ∙ ap (λ m. parse_digits m rest) (omega arith))
]
  where
    small : ltb n 10 ≡ true → (0 * 10 + n % 10) % word ≡ n % word
    small e = ground arith

abbrev pub IsDigit : ℕ → Type 0
IsDigit c = (b'0' ≤ c) × (c ≤ b'9')

IsDigit-append : (xs ys : Bytes) → All IsDigit xs → All IsDigit ys → All IsDigit (xs ++ ys)
IsDigit-append [] ys hx hy = hy
IsDigit-append (x ∷ xs) ys hx hy = (hx.0, IsDigit-append xs ys hx.1 hy)

pub decimal-digits : (f n : ℕ) → All IsDigit (decimal f n)
unfolding decimal
decimal-digits zero n = tt
decimal-digits (suc f) n = elim (Bool-cases (ltb n 10)) [
  | inl one ↦ rw one (omega arith, tt)
  | inr more ↦ rw more (IsDigit-append _ _ (decimal-digits f (n / 10)) (omega arith, tt))
]

pub decimal-ne-nil : (f n : ℕ) → decimal (suc f) n ≢ []
unfolding decimal
decimal-ne-nil f n = concat-ne-nil _ _

parse_int_bytes_unsigned :
    (xs : Bytes) → xs ≢ [] → All IsDigit xs → parse_int_bytes xs ≡ parse_digits 0 xs
unfolding parse_int_bytes
parse_int_bytes_unsigned [] ne h = absurd (ne refl)
parse_int_bytes_unsigned (c ∷ cs) ne h = ground arith

parse_digits-decimal_20 : (n : ℕ) → n < word → parse_digits 0 (decimal 20 n) ≡ some n
parse_digits-decimal_20 n h =
    ap (parse_digits 0) (sym (append-nil (decimal 20 n)))
    ∙ parse_digits-decimal 20 n [] (omega arith)
    ∙ unfold parse_digits in ap some (omega arith)

-- Every 64-bit integer is read back from its decimal form, the smallest one included.
pub parse_int_bytes-format_int : (n : ℕ) → n < word → parse_int_bytes (format_int n) ≡ some n
unfolding format_int
parse_int_bytes-format_int n h = elim (Bool-cases (is_negative n)) [
  | inl neg ↦ rw neg (
      unfold parse_int_bytes in
      rw (parse_digits-decimal_20 (word - n) (ground arith)) (ap some (ground arith)))
  | inr pos ↦ rw pos (
      parse_int_bytes_unsigned (decimal 20 n) (decimal-ne-nil 19 n) (decimal-digits 20 n)
      ∙ parse_digits-decimal_20 n h)
]

abbrev pub NoNewline : ℕ → Type 0
NoNewline c = c ≢ b'\n'

IsDigit-NoNewline : (xs : Bytes) → All IsDigit xs → All NoNewline xs
IsDigit-NoNewline [] h = tt
IsDigit-NoNewline (x ∷ xs) h = (omega arith, IsDigit-NoNewline xs h.1)

pub format_int-NoNewline : (n : ℕ) → All NoNewline (format_int n)
unfolding format_int
format_int-NoNewline n = elim (Bool-cases (is_negative n)) [
  | inl neg ↦ rw neg (omega arith, IsDigit-NoNewline _ (decimal-digits 20 (word - n)))
  | inr pos ↦ rw pos (IsDigit-NoNewline _ (decimal-digits 20 n))
]

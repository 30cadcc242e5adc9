-- ===== src/Proto/Line.antt =====
-- The line reader of the slice parsers of pkg/proto/resp.go. A parser is at a position `pos` of
-- the buffer, and `rest` is `buf[pos:]`.
use pluster.Prelude.{
  ℕ, zero, suc, take, drop, ltb, ◌+◌, ◌≤◌, ◌<◌, ◌≡◌, refl, ap, Option, none, some, [], ◌∷◌, ◌++◌,
  arith, ◌==◌, if◌then◌else◌, Bytes, All, length, length-append, Option-cases, inl, inr,
}
use mathlib.Core.Option
use pluster.Proto.Outcome.{Outcome, ok, incomplete, panicked}
use pluster.Proto.Int64.{half_word, is_negative}
use pluster.Proto.Int64.RoundTrip.{NoNewline}

-- `buf[pos : pos+idx]` and `buf[pos+idx+1:]` for the `idx` of `bytes.IndexByte(buf[pos:], '\n')`.
unfoldable pub split_newline : Bytes → Option (Bytes × Bytes)
split_newline [] = none
split_newline (c ∷ cs) =
    if c == b'\n'
    then some ([], cs)
    else Option.map (λ (l : Bytes × Bytes). (c ∷ l.0, l.1)) (split_newline cs)

-- The line without one '\r' at its end.
unfoldable pub drop_cr : Bytes → Bytes
drop_cr [] = []
drop_cr (c ∷ []) = if c == b'\r' then [] else c ∷ []
drop_cr (c ∷ d ∷ cs) = c ∷ drop_cr (d ∷ cs)

-- `readLine`: the line, the position behind it, and what follows.
unfoldable pub read_line : ℕ → Bytes → Outcome (Bytes × ℕ × Bytes)
unfolding split_newline drop_cr
read_line pos rest = elim (split_newline rest) [
  | none ↦ incomplete
  | some (line, after) ↦ ok (drop_cr line, pos + length line + 1, after)
]

pub split_newline-lem :
    (line rest : Bytes)
    → All NoNewline line
    → split_newline (line ++ b'\r' ∷ b'\n' ∷ rest) ≡ some (line ++ b'\r' ∷ [], rest)
unfolding split_newline
split_newline-lem [] rest h = refl
split_newline-lem (c ∷ cs) rest h = ground (arith, split_newline-lem cs rest h.1)

drop_cr-append : (line : Bytes) → drop_cr (line ++ b'\r' ∷ []) ≡ line
unfolding drop_cr
drop_cr-append [] = refl
drop_cr-append (c ∷ []) = refl
drop_cr-append (c ∷ d ∷ cs) = ap (◌∷◌ c) (drop_cr-append (d ∷ cs))

-- A line that ends in "\r\n" is read whole.
pub read_line-crlf :
    (pos : ℕ) (line rest : Bytes)
    → All NoNewline line
    → read_line pos (line ++ b'\r' ∷ b'\n' ∷ rest) ≡ ok (line, pos + length line + 2, rest)
unfolding read_line
read_line-crlf pos line rest h =
    rw (split_newline-lem line rest h, read_line, drop_cr-append line)
      (ap (λ p. ok (line, p, rest)) (omega (arith, length-append line (b'\r' ∷ []))))

pub split_newline-length :
    (rest line after : Bytes)
    → split_newline rest ≡ some (line, after)
    → length line + 1 + length after ≡ length rest
unfolding split_newline
split_newline-length [] line after h = cc
split_newline-length (c ∷ cs) line after h = elim (Option-cases (split_newline cs)) [
  | inl e ↦ ground arith
  | inr ((l, a), e) ↦ ground (arith, split_newline-length cs l a e)
]

-- Positions and what follows them agree, and a line takes at least one byte.
pub read_line-position :
    (pos : ℕ) (rest line after : Bytes) (e : ℕ)
    → read_line pos rest ≡ ok (line, e, after)
    → (e + length after ≡ pos + length rest) × (pos < e)
unfolding read_line
read_line-position pos rest line after e h = elim (Option-cases (split_newline rest)) [
  | inl e ↦ cc (rw (e, read_line) at h)
  | inr ((l, a), e) ↦ ground (arith, rw (e, read_line) at h, split_newline-length rest l a e)
]

-- `buf[pos : pos+n]` behind the check `need > len(buf)` for `need := pos + n + 2`. From 2^63 on
-- `need` wraps around to a negative number, passes the check, and the slice panics.
unfoldable pub read_body : ℕ → Bytes → ℕ → Outcome (Bytes × ℕ × Bytes)
read_body pos rest n =
    if is_negative (pos + n + 2)
    then panicked
    else if ltb (length rest) (n + 2)
    then incomplete
    else ok (take n rest, pos + n + 2, drop (n + 2) rest)

pub length-drop : (n : ℕ) (xs : Bytes) → n ≤ length xs → length (drop n xs) + n ≡ length xs
length-drop zero xs h = omega arith
length-drop (suc n) [] h = absurd (omega arith)
length-drop (suc n) (x ∷ xs) h = omega (arith, length-drop n xs (omega arith))

pub take-append : (xs ys : Bytes) → take (length xs) (xs ++ ys) ≡ xs
take-append [] ys = refl
take-append (x ∷ xs) ys = ap (◌∷◌ x) (take-append xs ys)

pub drop-append : (n : ℕ) (xs ys : Bytes) → drop (length xs + n) (xs ++ ys) ≡ drop n ys
drop-append n [] ys = let e : 0 + n ≡ n = omega arith in rw e
drop-append n (x ∷ xs) ys =
    let e : suc (length xs) + n ≡ suc (length xs + n) = omega arith in rw e (drop-append n xs ys)

-- A body that is there with its "\r\n" is read whole, if the position does not overflow.
pub read_body-crlf :
    (pos : ℕ) (body rest : Bytes)
    → pos + length body + 2 < half_word
    → read_body pos (body ++ b'\r' ∷ b'\n' ∷ rest) (length body)
      ≡ ok (body, pos + length body + 2, rest)
unfolding read_body
read_body-crlf pos body rest h =
    rw (take-append body (b'\r' ∷ b'\n' ∷ rest), drop-append 2 body (b'\r' ∷ b'\n' ∷ rest))
      (ground (arith, length-append body (b'\r' ∷ b'\n' ∷ rest)))

pub read_body-position :
    (pos n : ℕ) (rest body after : Bytes) (e : ℕ)
    → read_body pos rest n ≡ ok (body, e, after)
    → (e + length after ≡ pos + length rest) × (pos < e)
unfolding read_body
read_body-position pos n rest body after e h = ground (arith, length-drop (n + 2) rest)

-- ===== src/Proto/Request/Total.antt =====
-- How much `ParseRequest` takes, and its fuel.
use pluster.Prelude.{
  ℕ, zero, suc, ◌+◌, ◌≤◌, ◌<◌, ◌≡◌, ◌≢◌, inl, inr, List, [], ◌∷◌, ◌||◌, arith, Bytes, length, ◌==◌,
  Bool-cases,
}
use pluster.Proto.Outcome.{ok, stuck, >>=-eq-ok, >>=-ne-stuck}
use pluster.Proto.Int64.{is_negative, parse_int_bytes}
use pluster.Proto.Line.{read_line, read_body, read_line-position, read_body-position}
use pluster.Proto.Parse.{trim_space, is_nil, or_invalid}
use pluster.Proto.Parse.Total.{read_line-ne-stuck}
use pluster.Proto.Request.{
  Request, Arg, parse_args, Direct, parse_inline_request, parse_request_direct, parse_request,
}

parse_args-bounds :
    (n cur : ℕ) (rest : Bytes) (args : List Arg) (e : ℕ)
    → parse_args n cur rest ≡ ok (args, e)
    → (cur ≤ e) × (e ≤ cur + length rest)
unfolding parse_args
parse_args-bounds zero cur rest args e h = let same : cur ≡ e = ground arith in omega arith
parse_args-bounds (suc n) cur [] args e h = cc
parse_args-bounds (suc n) cur (c ∷ rest) args e h = elim (Bool-cases (c == b'$')) [
  | inr k ↦ cc (rw (k, parse_args) at h)
  | inl k ↦
      let (l, p, q) = >>=-eq-ok (read_line (cur + 1) rest) _ (rw (k, parse_args) at h) in
      let (blen, p2, q2) = >>=-eq-ok (or_invalid (parse_int_bytes l.0)) _ q in
      elim (Bool-cases (is_negative blen)) [
        | inl m ↦ cc (rw m at q2)
        | inr m ↦
            let (b, p3, q3) = >>=-eq-ok (read_body l.1 l.2 blen) _ (rw m at q2) in
            let (more, p4, q4) = >>=-eq-ok (parse_args n b.1 b.2) _ q3 in
            let same : more.1 ≡ e = ground arith in
            omega (
              arith,
              same,
              read_line-position (cur + 1) rest l.0 l.2 l.1 p,
              read_body-position l.1 blen l.2 b.0 b.2 b.1 p3,
              parse_args-bounds n b.1 b.2 more.0 more.1 p4,
            )
      ]
]

parse_inline_request-bounds :
    (buf : Bytes) (d : Direct)
    → parse_inline_request buf ≡ ok d
    → (0 < d.taken) × (d.taken ≤ length buf)
unfolding parse_inline_request
parse_inline_request-bounds buf d h =
    let (l, p, q) = >>=-eq-ok (read_line 0 buf) _ h in
    elim (Bool-cases (is_nil (trim_space l.0))) [
      | inl m ↦ cc (rw m at q)
      | inr m ↦
          let same : l.1 ≡ d.taken = cc (rw m at q) in
          omega (arith, same, read_line-position 0 buf l.0 l.2 l.1 p)
    ]

parse_request_direct-bounds :
    (buf : Bytes) (d : Direct)
    → parse_request_direct buf ≡ ok d
    → (0 < d.taken) × (d.taken ≤ length buf)
unfolding parse_request_direct
parse_request_direct-bounds [] d h = cc
parse_request_direct-bounds (c ∷ rest) d h = elim (Bool-cases (c == b'*')) [
  | inr k ↦ parse_inline_request-bounds (c ∷ rest) d (rw (k, parse_request_direct) at h)
  | inl k ↦
      let (l, p, q) = >>=-eq-ok (read_line 1 rest) _ (rw (k, parse_request_direct) at h) in
      let (n, p2, q2) = >>=-eq-ok (or_invalid (parse_int_bytes l.0)) _ q in
      elim (Bool-cases (is_negative n || n == 0)) [
        | inl m ↦ cc (rw m at q2)
        | inr m ↦
            let (args, p3, q3) = >>=-eq-ok (parse_args n l.1 l.2) _ (rw m at q2) in
            let same : args.1 ≡ d.taken = cc in
            omega (
              arith,
              same,
              read_line-position 1 rest l.0 l.2 l.1 p,
              parse_args-bounds n l.1 l.2 args.0 args.1 p3,
            )
      ]
]

-- A request that is parsed has taken at least one byte, and no more than the buffer has.
pub parse_request_bounds :
    (buf : Bytes) (req : Request) (e : ℕ)
    → parse_request buf ≡ ok (req, e)
    → (0 < e) × (e ≤ length buf)
unfolding parse_request
parse_request_bounds buf req e h =
    let (d, p, q) = >>=-eq-ok (parse_request_direct buf) _ h in
    let same : d.taken ≡ e = cc in omega (arith, same, parse_request_direct-bounds buf d p)

read_body-ne-stuck : (pos : ℕ) (rest : Bytes) (n : ℕ) → read_body pos rest n ≢ stuck
unfolding read_body
read_body-ne-stuck pos rest n = ground arith

parse_args-ne-stuck : (n cur : ℕ) (rest : Bytes) → parse_args n cur rest ≢ stuck
unfolding parse_args
parse_args-ne-stuck zero cur rest = λ e. cc
parse_args-ne-stuck (suc n) cur [] = λ e. cc
parse_args-ne-stuck (suc n) cur (c ∷ rest) = elim (Bool-cases (c == b'$')) [
  | inr k ↦ rw (parse_args, k) (λ e. cc)
  | inl k ↦
      rw (parse_args, k)
        (>>=-ne-stuck (read_line (cur + 1) rest) _ (read_line-ne-stuck (cur + 1) rest) (λ l p.
          >>=-ne-stuck (or_invalid (parse_int_bytes l.0)) _ (ground arith) (λ blen q.
            elim (Bool-cases (is_negative blen)) [
              | inl m ↦ rw m (λ e. cc)
              | inr m ↦ rw m (
                  >>=-ne-stuck (read_body l.1 l.2 blen) _ (read_body-ne-stuck l.1 l.2 blen) (λ b r.
                    >>=-ne-stuck (parse_args n b.1 b.2) _ (parse_args-ne-stuck n b.1 b.2)
                      (λ more s e. cc)))
            ])))
]

parse_inline_request-ne-stuck : (buf : Bytes) → parse_inline_request buf ≢ stuck
unfolding parse_inline_request
parse_inline_request-ne-stuck buf =
    >>=-ne-stuck (read_line 0 buf) _ (read_line-ne-stuck 0 buf) (λ l p. ground arith)

parse_request_direct-ne-stuck : (buf : Bytes) → parse_request_direct buf ≢ stuck
unfolding parse_request_direct
parse_request_direct-ne-stuck [] = λ e. cc
parse_request_direct-ne-stuck (c ∷ rest) = elim (Bool-cases (c == b'*')) [
  | inr k ↦ rw (parse_request_direct, k) (parse_inline_request-ne-stuck (c ∷ rest))
  | inl k ↦
      rw (parse_request_direct, k)
        (>>=-ne-stuck (read_line 1 rest) _ (read_line-ne-stuck 1 rest) (λ l p.
          >>=-ne-stuck (or_invalid (parse_int_bytes l.0)) _ (ground arith) (λ n q.
            elim (Bool-cases (is_negative n || n == 0)) [
              | inl m ↦ rw m (λ e. cc)
              | inr m ↦ rw m (
                  >>=-ne-stuck (parse_args n l.1 l.2) _ (parse_args-ne-stuck n l.1 l.2)
                    (λ a r e. cc))
            ])))
]

-- It never runs out of what the model lets it take.
pub parse_request_total : (buf : Bytes) → parse_request buf ≢ stuck
unfolding parse_request
parse_request_total buf =
    >>=-ne-stuck (parse_request_direct buf) _ (parse_request_direct-ne-stuck buf) (λ d p e. cc)

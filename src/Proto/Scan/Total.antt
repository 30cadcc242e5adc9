-- ===== src/Proto/Scan/Total.antt =====
-- `ScanValue` ends within the buffer, and the fuel never runs out.
use pluster.Prelude.{
  ℕ, zero, suc, ◌+◌, ◌≤◌, ◌<◌, ◌≡◌, ◌≢◌, [], ◌∷◌, arith, Bytes, ◌==◌, ◌||◌, length, Bool-cases, inl,
  inr,
}
use pluster.Proto.Outcome.{Outcome, ok, stuck, ◌>>=◌, >>=-eq-ok, >>=-ne-stuck}
use pluster.Proto.Int64.{is_negative, parse_int_bytes}
use pluster.Proto.Line.{read_line, read_body, read_line-position, read_body-position}
use pluster.Proto.Scan.{
  Scanned, scan_values, scan_bulk, scan_array, scan_typed, scan_value_at, scan_value, or_incomplete,
}

abbrev Scan : Type 0
Scan = ℕ → Bytes → Outcome Scanned

-- What is scanned lies behind `pos`, in one buffer with `rest`.
abbrev Ahead : ℕ → Bytes → Scanned → Type 0
Ahead pos rest s = (s.end + length s.after ≡ pos + length rest) × (pos < s.end)

abbrev GoesAhead : Scan → Type 0
GoesAhead scan = (pos : ℕ) (rest : Bytes) (s : Scanned) → scan pos rest ≡ ok s → Ahead pos rest s

-- A scan that ends with the first line.
line_scan-Ahead :
    (pos : ℕ) (rest : Bytes) (k : Bytes × ℕ × Bytes → Outcome Scanned) (s : Scanned)
    → ((l : Bytes × ℕ × Bytes) → k l ≡ ok s → (s.end ≡ l.1) × (s.after ≡ l.2))
    → (read_line pos rest >>= k) ≡ ok s
    → Ahead pos rest s
line_scan-Ahead pos rest k s stays h =
    let ((line, e, after), p, q) = >>=-eq-ok (read_line pos rest) k h in
    ground (arith, read_line-position pos rest line after e p, stays (line, e, after) q)

scan_bulk-Ahead : GoesAhead scan_bulk
scan_bulk-Ahead pos rest s h =
    let ((line, e1, after1), p, q) = >>=-eq-ok (read_line pos rest) _ h in
    let (n, p', q') = >>=-eq-ok (or_incomplete (parse_int_bytes line)) _ q in
    elim (Bool-cases (is_negative n)) [
      | inl neg ↦ ground (arith, rw neg at q', read_line-position pos rest line after1 e1 p)
      | inr pos' ↦
          let ((body, e2, after2), p2, q2) = >>=-eq-ok (read_body e1 after1 n) _ (rw pos' at q') in
          ground (
            arith,
            read_line-position pos rest line after1 e1 p,
            read_body-position e1 n after1 body after2 e2 p2,
          )
    ]

module _ {scan : Scan} (adv : GoesAhead scan) where
  scan_values-position :
      (n pos : ℕ) (rest : Bytes) (e : ℕ) (after : Bytes)
      → scan_values scan n pos rest ≡ ok (e, after)
      → (e + length after ≡ pos + length rest) × (pos ≤ e)
  unfolding scan_values
  scan_values-position zero pos rest e after h = ground arith
  scan_values-position (suc n) pos rest e after h =
      let (s, p, q) = >>=-eq-ok (scan pos rest) _ h in
      ground (arith, adv pos rest s p, scan_values-position n s.end s.after e after q)

  scan_array-Ahead : GoesAhead (scan_array scan)
  scan_array-Ahead pos rest s h =
      let ((line, e1, after1), p, q) = >>=-eq-ok (read_line pos rest) _ h in
      let (n, p', q') = >>=-eq-ok (or_incomplete (parse_int_bytes line)) _ q in
      elim (Bool-cases (is_negative n)) [
        | inl neg ↦ ground (arith, rw neg at q', read_line-position pos rest line after1 e1 p)
        | inr pos' ↦
            let ((e2, after2), p2, q2) =
              >>=-eq-ok (scan_values scan n e1 after1) _ (rw pos' at q') in
            ground (
              arith,
              read_line-position pos rest line after1 e1 p,
              scan_values-position n e1 after1 e2 after2 p2,
            )
      ]

  scan_typed-Ahead :
      (typ pos : ℕ) (rest : Bytes) (s : Scanned)
      → scan_typed scan typ pos rest ≡ ok s
      → Ahead pos (typ ∷ rest) s
  unfolding scan_typed
  scan_typed-Ahead typ pos rest s h = elim (Bool-cases (typ == b'+' || typ == b':')) [
    | inl y ↦ step (line_scan-Ahead (pos + 1) rest _ s (λ l q. ground arith) (rw y at h))
    | inr n1 ↦ elim (Bool-cases (typ == b'-')) [
      | inl y ↦ step (line_scan-Ahead (pos + 1) rest _ s (λ l q. ground arith) (rw (n1, y) at h))
      | inr n2 ↦ elim (Bool-cases (typ == b'$')) [
        | inl y ↦ step (scan_bulk-Ahead (pos + 1) rest s (rw (n1, n2, y) at h))
        | inr n3 ↦ elim (Bool-cases (typ == b'*')) [
          | inl y ↦ step (scan_array-Ahead (pos + 1) rest s (rw (n1, n2, n3, y) at h))
          | inr n4 ↦
              line_scan-Ahead pos (typ ∷ rest) _ s (λ l q. ground arith) (rw (n1, n2, n3, n4) at h)
        ]
      ]
    ]
  ]
    where
      step : Ahead (pos + 1) rest s → Ahead pos (typ ∷ rest) s
      step a = omega arith

scan_value_at-Ahead : (f : ℕ) → GoesAhead (scan_value_at f)
unfolding scan_value_at
scan_value_at-Ahead zero pos rest s h = cc
scan_value_at-Ahead (suc f) pos [] s h = cc
scan_value_at-Ahead (suc f) pos (typ ∷ rest) s h =
    scan_typed-Ahead (scan_value_at-Ahead f) typ pos rest s h

-- `ScanValue` takes at least one byte, and none that is not there.
pub scan_value_bounds :
    (buf : Bytes) (s : Scanned) → scan_value buf ≡ ok s → (0 < s.end) × (s.end ≤ length buf)
unfolding scan_value
scan_value_bounds buf s h = omega (arith, scan_value_at-Ahead (length buf + 1) 0 buf s h)

abbrev IsLive : ℕ → Scan → Type 0
IsLive f scan = (pos : ℕ) (rest : Bytes) → length rest < f → scan pos rest ≢ stuck

read_line-ne-stuck : (pos : ℕ) (rest : Bytes) → read_line pos rest ≢ stuck
unfolding read_line
read_line-ne-stuck pos rest = ground arith

scan_bulk-ne-stuck : (pos : ℕ) (rest : Bytes) → scan_bulk pos rest ≢ stuck
unfolding read_body
scan_bulk-ne-stuck pos rest =
    >>=-ne-stuck (read_line pos rest) _ (read_line-ne-stuck pos rest) (λ l p. ground arith)

module _ {scan : Scan} (adv : GoesAhead scan) (f : ℕ) (live : IsLive f scan) where
  scan_values-ne-stuck :
      (n pos : ℕ) (rest : Bytes) → length rest < f → scan_values scan n pos rest ≢ stuck
  unfolding scan_values
  scan_values-ne-stuck zero pos rest h = λ e. cc
  scan_values-ne-stuck (suc n) pos rest h =
      >>=-ne-stuck (scan pos rest) _ (live pos rest h)
        (λ s p. scan_values-ne-stuck n s.end s.after (omega (arith, adv pos rest s p)))

  scan_array-ne-stuck :
      (pos : ℕ) (rest : Bytes) → length rest < f → scan_array scan pos rest ≢ stuck
  scan_array-ne-stuck pos rest h =
      >>=-ne-stuck (read_line pos rest) _ (read_line-ne-stuck pos rest) (λ l p.
        >>=-ne-stuck (or_incomplete (parse_int_bytes l.0)) _ (ground arith) (λ n q. ground (
          arith,
          scan_values-ne-stuck n l.1 l.2 (omega (arith, read_line-position pos rest l.0 l.2 l.1 p)),
        )))

  scan_typed-ne-stuck :
      (typ pos : ℕ) (rest : Bytes) → length rest < f → scan_typed scan typ pos rest ≢ stuck
  unfolding scan_typed
  scan_typed-ne-stuck typ pos rest h = ground (
    arith,
    read_line-ne-stuck (pos + 1) rest,
    read_line-ne-stuck pos (typ ∷ rest),
    scan_bulk-ne-stuck (pos + 1) rest,
    scan_array-ne-stuck (pos + 1) rest h,
  )

scan_value_at-ne-stuck : (f : ℕ) → IsLive f (scan_value_at f)
unfolding scan_value_at
scan_value_at-ne-stuck zero pos rest h = absurd (omega arith)
scan_value_at-ne-stuck (suc f) pos [] h = λ e. cc
scan_value_at-ne-stuck (suc f) pos (typ ∷ rest) h =
    scan_typed-ne-stuck (scan_value_at-Ahead f) f (scan_value_at-ne-stuck f) typ pos rest
      (omega arith)

-- `ScanValue` ends on every buffer: the fuel of the model is enough.
pub scan_value_total : (buf : Bytes) → scan_value buf ≢ stuck
unfolding scan_value
scan_value_total buf = scan_value_at-ne-stuck (length buf + 1) 0 buf (omega arith)

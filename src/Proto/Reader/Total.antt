-- ===== src/Proto/Reader/Total.antt =====
-- What `ReadValue` takes from the stream, and its fuel.
use pluster.Prelude.{
  ℕ, zero, suc, ◌+◌, ◌≤◌, ◌<◌, ◌≡◌, ◌≢◌, refl, Option, none, some, List, [], ◌∷◌, arith, Bytes,
  length, ◌==◌, if◌then◌else◌, Bool, true, false, Bool-cases, Option-cases, inl, inr, drop, ltb,
}
use pluster.Proto.Outcome.{Outcome, ok, incomplete, invalid, panicked, stuck, ◌>>=◌}
use pluster.Proto.Int64.{is_negative, add64}
use pluster.Proto.Value.{Value}
use pluster.Proto.Line.{split_newline, split_newline-length, length-drop}
use pluster.Proto.Parse.{fields, or_invalid, is_nil}
use pluster.Router.Redirect.{atoi}
use pluster.Proto.Reader.{
  without_cr, ends_in_crlf, next_line, read_full, read_integer, read_bulk_string, trim_crlf,
  line_or_rest, inline_of, read_inline, read_values, read_array, read_typed, read_value_from,
  read_value,
}

-- An answer, with which no more is left of the stream than before.
record Takes {A : Type 0} (rest : Bytes) (o : Outcome (A × Bytes)) : Type 0 where
  live : o ≢ stuck
  takes : (a : A) (after : Bytes) → o ≡ ok (a, after) → length after ≤ length rest

ok-Takes :
    {A : Type 0} (rest after : Bytes) (a : A)
    → length after ≤ length rest
    → Takes rest (ok (a, after))
ok-Takes rest after a h = record {
  live = λ e. cc;
  takes = λ a' after' e. let same : after ≡ after' = cc in rw (← same) h;
}

no-Takes :
    {A : Type 0} (rest : Bytes) (o : Outcome (A × Bytes))
    → o ≢ stuck
    → ((x : A × Bytes) → o ≢ ok x)
    → Takes rest o
no-Takes rest o s n = record { live = s; takes = λ a after e. absurd (n (a, after) e) }

if-Takes :
    {A : Type 0} (rest : Bytes) (b : Bool) (x y : Outcome (A × Bytes))
    → Takes rest x
    → Takes rest y
    → Takes rest (if b then x else y)
if-Takes rest true x y p q = p
if-Takes rest false x y p q = q

bind-Takes :
    {A B : Type 0} (rest : Bytes) (o : Outcome (A × Bytes)) (f : A × Bytes → Outcome (B × Bytes))
    → Takes rest o
    → ((a : A) (after : Bytes) → length after ≤ length rest → Takes rest (f (a, after)))
    → Takes rest (o >>= f)
bind-Takes rest (ok (a, after)) f p q = q a after (p.takes a after refl)
bind-Takes rest incomplete f p q = no-Takes rest incomplete (λ e. cc) (λ x e. cc)
bind-Takes rest invalid f p q = no-Takes rest invalid (λ e. cc) (λ x e. cc)
bind-Takes rest panicked f p q = no-Takes rest panicked (λ e. cc) (λ x e. cc)
bind-Takes rest stuck f p q = absurd (p.live refl)

ends_in_crlf-Takes :
    (rest after : Bytes) (o : Option Bytes)
    → length after ≤ length rest
    → Takes rest (ends_in_crlf o after)
ends_in_crlf-Takes rest after none h = no-Takes rest invalid (λ e. cc) (λ x e. cc)
ends_in_crlf-Takes rest after (some line) h = ok-Takes rest after line h

next_line-Takes : (rest : Bytes) → Takes rest (next_line rest)
unfolding next_line
next_line-Takes rest = elim (Option-cases (split_newline rest)) [
  | inl e ↦ rw (next_line, e) (no-Takes rest incomplete (λ e. cc) (λ x e. cc))
  | inr ((line, after), e) ↦
      rw (next_line, e)
        (ends_in_crlf-Takes rest after (without_cr line)
          (omega (arith, split_newline-length rest line after e)))
]

longer-Takes :
    {A : Type 0} (rest after : Bytes) (o : Outcome (A × Bytes))
    → length after ≤ length rest
    → Takes after o
    → Takes rest o
longer-Takes rest after o h p = record {
  live = p.live;
  takes = λ a left e. omega (arith, h, p.takes a left e);
}

or_invalid-Takes :
    {A : Type 0} (rest : Bytes) (o : Option ℕ) (f : ℕ → Outcome (A × Bytes))
    → ((n : ℕ) → Takes rest (f n))
    → Takes rest (or_invalid o >>= f)
or_invalid-Takes rest none f p = no-Takes rest invalid (λ e. cc) (λ x e. cc)
or_invalid-Takes rest (some n) f p = p n

read_full-Takes : (n : ℕ) (rest : Bytes) → Takes rest (read_full n rest)
read_full-Takes n rest =
    if-Takes rest (is_negative (add64 n 2)) _ _ (no-Takes rest panicked (λ e. cc) (λ x e. cc))
      (elim (Bool-cases (ltb (length rest) (n + 2))) [
        | inl y ↦ rw y (no-Takes rest incomplete (λ e. cc) (λ x e. cc))
        | inr m ↦
            let enough : n + 2 ≤ length rest = ground arith in
            rw m
              (ok-Takes rest (drop (n + 2) rest) _ (omega (arith, length-drop (n + 2) rest enough)))
      ])

read_integer-Takes : (rest : Bytes) → Takes rest (read_integer rest)
unfolding read_integer
read_integer-Takes rest =
    bind-Takes rest (next_line rest) _ (next_line-Takes rest)
      (λ line after h. or_invalid-Takes rest (atoi line) _ (λ n. ok-Takes rest after _ h))

read_bulk_string-Takes : (rest : Bytes) → Takes rest (read_bulk_string rest)
unfolding read_bulk_string
read_bulk_string-Takes rest =
    bind-Takes rest (next_line rest) _ (next_line-Takes rest) (λ line after h.
      or_invalid-Takes rest (atoi line) _ (λ n.
        if-Takes rest (is_negative n) _ _ (ok-Takes rest after _ h)
          (longer-Takes rest after _ h (read_full-Takes n after))))

inline_of-Takes :
    (rest after : Bytes) (ws : List Bytes)
    → length after ≤ length rest
    → Takes rest (inline_of ws after)
inline_of-Takes rest after [] h = no-Takes rest invalid (λ e. cc) (λ x e. cc)
inline_of-Takes rest after (w ∷ ws) h = ok-Takes rest after _ h

line_or_rest-le : (rest : Bytes) → length (line_or_rest rest (split_newline rest)).1 ≤ length rest
line_or_rest-le rest = elim (Option-cases (split_newline rest)) [
  | inl e ↦ rw e (omega arith)
  | inr ((line, after), e) ↦ rw e (omega (arith, split_newline-length rest line after e))
]

read_inline-Takes : (first : ℕ) (rest : Bytes) → Takes rest (read_inline first rest)
unfolding read_inline
read_inline-Takes first rest =
    let l = line_or_rest rest (split_newline rest) in
    let full = trim_crlf (first ∷ l.0) in
    if-Takes rest (is_nil full) _ _ (no-Takes rest invalid (λ e. cc) (λ x e. cc))
      (inline_of-Takes rest l.1 (fields full) (line_or_rest-le rest))

-- The elements of an array, where the reader of elements is good for all streams up to a length.
module _ (read : Bytes → Outcome (Value × Bytes)) (m : ℕ)
    (good : (r : Bytes) → length r ≤ m → Takes r (read r)) where
  read_values-Takes :
      (n : ℕ) (rest : Bytes) → length rest ≤ m → Takes rest (read_values read n rest)
  unfolding read_values
  read_values-Takes zero rest h = ok-Takes rest rest _ (omega arith)
  read_values-Takes (suc n) rest h = bind-Takes rest (read rest) _ (good rest h) (λ v after k.
      bind-Takes rest (read_values read n after) _
        (longer-Takes rest after _ k (read_values-Takes n after (omega arith)))
        (λ vs left l. ok-Takes rest left _ l))

  read_array-Takes : (rest : Bytes) → length rest ≤ m → Takes rest (read_array read rest)
  unfolding read_array
  read_array-Takes rest b =
      bind-Takes rest (next_line rest) _ (next_line-Takes rest) (λ line after h.
        or_invalid-Takes rest (atoi line) _ (λ n.
          if-Takes rest (is_negative n) _ _ (ok-Takes rest after _ h) (
            bind-Takes rest (read_values read n after) _
              (longer-Takes rest after _ h (read_values-Takes n after (omega arith)))
              (λ vs left l. ok-Takes rest left _ l))))

  read_typed-Takes :
      (typ : ℕ) (rest : Bytes) → length rest ≤ m → Takes rest (read_typed read typ rest)
  unfolding read_typed
  read_typed-Takes typ rest b =
      if-Takes rest (typ == b'+') _ _
        (bind-Takes rest (next_line rest) _ (next_line-Takes rest)
          (λ l after h. ok-Takes rest after _ h))
        (if-Takes rest (typ == b'-') _ _
          (bind-Takes rest (next_line rest) _ (next_line-Takes rest)
            (λ l after h. ok-Takes rest after _ h))
          (if-Takes rest (typ == b':') _ _ (read_integer-Takes rest) (
            if-Takes rest (typ == b'$') _ _ (read_bulk_string-Takes rest) (
              if-Takes rest (typ == b'*') _ _ (read_array-Takes rest b)
                (read_inline-Takes typ rest)))))

read_value_from-Takes :
    (f : ℕ) (rest : Bytes) → length rest < f → Takes rest (read_value_from f rest)
unfolding read_value_from
read_value_from-Takes zero rest h = absurd (omega arith)
read_value_from-Takes (suc f) [] h = no-Takes [] incomplete (λ e. cc) (λ x e. cc)
read_value_from-Takes (suc f) (b ∷ rest) h = longer-Takes (b ∷ rest) rest _ (omega arith) (
    read_typed-Takes (read_value_from f) (length rest)
      (λ r k. read_value_from-Takes f r (omega arith)) b rest (omega arith))

-- On any stream `ReadValue` ends, and what is left of the stream is no longer than the stream.
pub read_value_total :
    (rest : Bytes)
    → (read_value rest ≢ stuck)
      × ((v : Value) (after : Bytes) → read_value rest ≡ ok (v, after) → length after ≤ length rest)
unfolding read_value
read_value_total rest =
    let t = read_value_from-Takes (length rest + 1) rest (omega arith) in (t.live, t.takes)

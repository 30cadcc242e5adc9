-- ===== src/Proto/Outcome.antt =====
-- What a parser of pkg/proto/resp.go returns: a value, `errIncomplete`, `ErrInvalidProtocol`, or a
-- run-time panic. `stuck` is the model's own: its fuel ran out.
use pluster.Prelude.{◌≡◌, ◌≢◌, refl}

pub data Outcome {ℓ} (A : Type ℓ) : Type ℓ where
  ok : A → Outcome A
  incomplete invalid panicked stuck : Outcome A

module _ {ℓ κ} {A : Type ℓ} {B : Type κ} where
  infixl 5 ◌>>=◌
  abbrev pub ◌>>=◌ : Outcome A → (A → Outcome B) → Outcome B
  incomplete >>= next = incomplete
  invalid >>= next = invalid
  panicked >>= next = panicked
  stuck >>= next = stuck
  ok x >>= next = next x

  -- Inversion of a successful bind.
  pub >>=-eq-ok :
      (o : Outcome A) (next : A → Outcome B) {y : B}
      → (o >>= next) ≡ ok y
      → (x : A) × (o ≡ ok x) × (next x ≡ ok y)
  >>=-eq-ok incomplete next e = cc
  >>=-eq-ok invalid next e = cc
  >>=-eq-ok panicked next e = cc
  >>=-eq-ok stuck next e = cc
  >>=-eq-ok (ok x) next e = (x, refl, e)

  -- A bind does not run out of fuel where its parts do not.
  pub >>=-ne-stuck :
      (m : Outcome A) (f : A → Outcome B)
      → m ≢ stuck
      → ((a : A) → m ≡ ok a → f a ≢ stuck)
      → (m >>= f) ≢ stuck
  >>=-ne-stuck (ok a) f n h = h a refl
  >>=-ne-stuck stuck f n h = absurd (n refl)
  >>=-ne-stuck incomplete f n h = λ e. cc
  >>=-ne-stuck invalid f n h = λ e. cc
  >>=-ne-stuck panicked f n h = λ e. cc

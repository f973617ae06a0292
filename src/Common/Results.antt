-- ===== src/Common/Results.antt =====
-- What a fallible call of the program comes to.
use mathlib.Core.Path.{◌≡◌, refl}

-- `err` is Rust's `Err`, `panic` a failed `unwrap`, `expect` or `panic!`, and `blocked` a call that
-- waits for a message which never comes.
pub data Outcome {ℓ} (E : Type 0) (A : Type ℓ) : Type ℓ where
  ok : A → Outcome E A
  err : E → Outcome E A
  panic : Outcome E A
  blocked : Outcome E A

module _ {ℓ κ} {E : Type 0} {A : Type ℓ} {B : Type κ} where
  infixl 5 ◌>>=◌
  abbrev pub ◌>>=◌ : Outcome E A → (A → Outcome E B) → Outcome E B
  panic >>= next = panic
  blocked >>= next = blocked
  err e >>= next = err e
  ok a >>= next = next a

  -- A chain that succeeds had a first step that succeeded.
  pub >>=-eq-ok :
      (step : Outcome E A) (next : A → Outcome E B) {b : B}
      → (step >>= next) ≡ ok b
      → (a : A) × (step ≡ ok a) × (next a ≡ ok b)
  >>=-eq-ok panic next h = cc
  >>=-eq-ok blocked next h = cc
  >>=-eq-ok (err e) next h = cc
  >>=-eq-ok (ok a) next h = (a, refl, h)

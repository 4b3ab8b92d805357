-- ===== src/Exec/Ensures.antt =====
-- What a method ensures if it succeeds.
use openconnectd.Base.{◌≡◌, refl}
use openconnectd.Errors.{Result, ok, err}
use openconnectd.Exec
use openconnectd.Exec.{Exec, continue, ◌>>=◌}

pub record Ensures {ℓ κ} {S : Type 0} {A : Type ℓ} (Q : S → Type κ) (m : Exec S A)
    : Type (ℓ ⊔ κ) where
  pub at : (s : S) (a : A) → (m s).0 ≡ ok a → Q (m s).1

module _ {ℓ κ μ} {S : Type 0} {A : Type ℓ} {B : Type κ} {Q : S → Type μ} where
  Ensures-continue :
      (r : Result A) (f : A → Exec S B) (s : S) (b : B)
      → ((a : A) → Ensures Q (f a))
      → (continue r f s).0 ≡ ok b
      → Q (continue r f s).1
  Ensures-continue (ok a) f s b hf e = (hf a).at s b e
  Ensures-continue (err x) f s b hf e = cc

  pub Ensures-bind :
      (m : Exec S A) (f : A → Exec S B) → ((a : A) → Ensures Q (f a)) → Ensures Q (m >>= f)
  Ensures-bind m f hf = record { at = λ s b e. Ensures-continue (m s).0 f (m s).1 b hf e }

  pub Ensures-lift :
      (r : Result A) (f : A → Exec S B)
      → ((a : A) → r ≡ ok a → Ensures Q (f a))
      → Ensures Q (Exec.lift r >>= f)
  Ensures-lift (ok a) f hf = record { at = (hf a refl).at }
  Ensures-lift (err x) f hf = record { at = λ s b e. cc }

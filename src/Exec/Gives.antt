-- ===== src/Exec/Gives.antt =====
-- What a method returns if it succeeds, in any state.
use openconnectd.Errors.{Result, ok, err, Returns}
use openconnectd.Exec
use openconnectd.Exec.{Exec, continue, ◌>>=◌, attempt, wrapping}

pub record Gives {ℓ κ} {S : Type 0} {A : Type ℓ} (P : A → Type κ) (m : Exec S A)
    : Type (ℓ ⊔ κ) where
  pub at : (s : S) → Returns P (m s).0

module _ {ℓ κ} {S : Type 0} {A : Type ℓ} {P : A → Type κ} where
  pub Gives-pure : (a : A) → P a → Gives {S = S} P (Exec.pure a)
  Gives-pure a h = record { at = λ s. h }

  pub Gives-lift : (r : Result A) → Returns P r → Gives {S = S} P (Exec.lift r)
  Gives-lift r h = record { at = λ s. h }

  pub Gives-attempt : (m : Exec S A) → Gives P m → Gives (Returns P) (attempt m)
  Gives-attempt m h = record { at = h.at }

module _ {ℓ κ μ ν} {S : Type 0} {A : Type ℓ} {B : Type κ} {P : A → Type μ} {Q : B → Type ν} where
  Gives-continue :
      (r : Result A) (f : A → Exec S B) (s : S)
      → ((a : A) → P a → Gives Q (f a))
      → Returns P r
      → Returns Q (continue r f s).0
  Gives-continue (ok a) f s hf h = (hf a h).at s
  Gives-continue (err e) f s hf h = tt

  pub Gives-bind :
      (m : Exec S A) (f : A → Exec S B)
      → Gives P m
      → ((a : A) → P a → Gives Q (f a))
      → Gives Q (m >>= f)
  Gives-bind m f hm hf = record { at = λ s. Gives-continue (m s).0 f (m s).1 hf (hm.at s) }

module _ {ℓ κ ν} {S : Type 0} {A : Type ℓ} {B : Type κ} {Q : B → Type ν} where
  Gives-any-continue :
      (r : Result A) (f : A → Exec S B) (s : S)
      → ((a : A) → Gives Q (f a))
      → Returns Q (continue r f s).0
  Gives-any-continue (ok a) f s hf = (hf a).at s
  Gives-any-continue (err e) f s hf = tt

  -- Whatever the first part returns.
  pub Gives-then : (m : Exec S A) (f : A → Exec S B) → ((a : A) → Gives Q (f a)) → Gives Q (m >>= f)
  Gives-then m f hf = record { at = λ s. Gives-any-continue (m s).0 f (m s).1 hf }

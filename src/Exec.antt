-- ===== src/Exec.antt =====
-- Methods that change a state and may fail. What was written before a failure stays written, so the
-- state comes back beside the error too.
pub mod Ensures
pub mod Gives
use openconnectd.Base.{Bool, true, false, ◌≡◌, refl}
use openconnectd.Errors
use openconnectd.Errors.{Error, Result, ok, err}

abbrev pub Exec {ℓ} : Type 0 → Type ℓ → Type ℓ
Exec S A = S → Result A × S

module _ {ℓ} {S : Type 0} {A : Type ℓ} where
  abbrev pub pure : A → Exec S A
  pure a s = (ok a, s)

  abbrev pub raise : Error → Exec S A
  raise e s = (err e, s)

  abbrev pub lift : Result A → Exec S A
  lift r s = (r, s)

  abbrev pub gets : (S → A) → Exec S A
  gets f s = (ok (f s), s)

  abbrev settle : Result A → S → Result (Result A) × S
  settle r s = (ok r, s)

  -- The result, an error as well, as a value.
  abbrev pub attempt : Exec S A → Exec S (Result A)
  attempt m s = let (r, s') = m s in settle r s'

  abbrev pub forget : Exec S A → Exec S (Unit {0})
  forget m s = let (r, s') = m s in (ok tt, s')

  -- `fmt.Errorf("...: %w", err)`
  abbrev pub wrapping : (Error → Error) → Exec S A → Exec S A
  wrapping f m s = let (r, s') = m s in (Errors.wrap f r, s')

module _ {ℓ κ} {S : Type 0} {A : Type ℓ} {B : Type κ} where
  abbrev pub continue : Result A → (A → Exec S B) → Exec S B
  continue (ok a) f s = f a s
  continue (err e) f s = (err e, s)

  -- Inversion: a chain that succeeded had a first part that did.
  pub continue-eq-ok :
      (r : Result A) (f : A → Exec S B) (s : S) {b : B}
      → (continue r f s).0 ≡ ok b
      → (a : A) × (r ≡ ok a) × (continue r f s ≡ f a s)
  continue-eq-ok (ok a) f s h = (a, refl, refl)
  continue-eq-ok (err e) f s h = cc

  infixl 5 ◌>>=◌
  abbrev pub ◌>>=◌ : Exec S A → (A → Exec S B) → Exec S B
  ◌>>=◌ m f s = let (r, s') = m s in continue r f s'

  infixl 5 ◌>>◌
  abbrev pub ◌>>◌ : Exec S A → Exec S B → Exec S B
  m >> n = m >>= λ _. n

abbrev pub skip : {S : Type 0} → Exec S (Unit {0})
skip s = (ok tt, s)

-- `if failed { return err }`
abbrev pub refuse : {S : Type 0} → Bool → Error → Exec S (Unit {0})
refuse true e s = (err e, s)
refuse false e s = (ok tt, s)

-- ===== src/Manager/Makes.antt =====
-- What an action returns, and where it leaves the records and the supervisor, if it succeeds.
use openconnectd.Errors.{Result, ok, err, Returns}
use openconnectd.Exec
use openconnectd.Exec.{Exec, continue, ◌>>=◌}
use openconnectd.Manager.{World}
use openconnectd.Manager.Keeps.{Cond, Moves}

-- `P` before, and `R` of the result behind it.
pub record Makes {ℓ} {A : Type ℓ} (P : Cond) (R : A → Cond) (m : Exec World A) : Type ℓ where
  pub at :
      (w : World)
      → P w.store.records w.sup
      → Returns (λ a. R a (m w).1.store.records (m w).1.sup) (m w).0

module _ {ℓ} {A : Type ℓ} {P : Cond} {R : A → Cond} where
  pub Makes-raise : (e : _) → Makes P R (Exec.raise e)
  Makes-raise e = record { at = λ w p. tt }

  pub Makes-pure : (a : A) → ((r : _) (s : _) → P r s → R a r s) → Makes P R (Exec.pure a)
  Makes-pure a h = record { at = λ w p. h w.store.records w.sup p }

module _ {ℓ κ} {A : Type ℓ} {B : Type κ} {Q : Cond} {R : B → Cond} where
  Makes-continue :
      (r : Result A) (f : A → Exec World B) (w : World)
      → ((a : A) → Makes Q R (f a))
      → Q w.store.records w.sup
      → Returns
          (λ b. R b (continue r f w).1.store.records (continue r f w).1.sup)
          (continue r f w).0
  Makes-continue (ok a) f w hf q = (hf a).at w q
  Makes-continue (err e) f w hf q = tt

module _ {ℓ κ} {A : Type ℓ} {B : Type κ} {P Q : Cond} {R : B → Cond} where
  pub Makes-bind :
      (m : Exec World A) (f : A → Exec World B)
      → Moves P Q m
      → ((a : A) → Makes Q R (f a))
      → Makes P R (m >>= f)
  Makes-bind m f hm hf = record { at = λ w p. Makes-continue (m w).0 f (m w).1 hf (hm.at w p) }

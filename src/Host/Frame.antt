-- ===== src/Host/Frame.antt =====
-- Actions that leave a file alone.
use openconnectd.Base.{◌≡◌, ◌≢◌, refl, ◌∙◌, ap, Bool, true, false, Text, if◌then◌else◌}
use openconnectd.Base.Dict.{lookup}
use openconnectd.Errors.{Error, Result, ok, err}
use openconnectd.Exec
use openconnectd.Exec.{Exec, continue, ◌>>=◌}
use openconnectd.Host.{Env, Host, call, write_file, read_file, remove, rename}
use openconnectd.Host.Laws.{
  file, files-call, files-read_file, write_file-other, remove-other, rename-other,
}

-- Whatever comes of the action, the file is as it was.
pub record Spares {ℓ} {A : Type ℓ} (other : Text) (m : Exec Host A) : Type ℓ where
  pub at : (h : Host) → file other (m h).1 ≡ file other h

module _ {other : Text} (env : Env) where
  pub Spares-call : Spares other (call env)
  Spares-call = record { at = λ h. ap (lookup other) (files-call env h) }

  pub Spares-read_file : (path : Text) → Spares other (read_file env path)
  Spares-read_file path = record { at = λ h. ap (lookup other) (files-read_file env h path) }

  pub Spares-write_file :
      (path content : Text) → path ≢ other → Spares other (write_file env path content)
  Spares-write_file path content ne = record {
    at = λ h. write_file-other env h path content other ne;
  }

  pub Spares-remove : (path : Text) → path ≢ other → Spares other (remove env path)
  Spares-remove path ne = record { at = λ h. remove-other env h path other ne }

  pub Spares-rename :
      (old new : Text) → old ≢ other → new ≢ other → Spares other (rename env old new)
  Spares-rename old new ne ne' = record { at = λ h. rename-other env h old new other ne ne' }

module _ {ℓ} {A : Type ℓ} {other : Text} where
  pub Spares-pure : (a : A) → Spares other (Exec.pure a)
  Spares-pure a = record { at = λ h. refl }

  pub Spares-raise : (e : Error) → Spares other (Exec.raise {A = A} e)
  Spares-raise e = record { at = λ h. refl }

  pub Spares-if :
      (b : Bool) (m n : Exec Host A)
      → (b ≡ true → Spares other m)
      → (b ≡ false → Spares other n)
      → Spares other (if b then m else n)
  Spares-if true m n hm hn = hm refl
  Spares-if false m n hm hn = hn refl

module _ {ℓ κ} {A : Type ℓ} {B : Type κ} {other : Text} where
  Spares-continue :
      (r : Result A) (f : A → Exec Host B) (h : Host)
      → ((a : A) → Spares other (f a))
      → file other (continue r f h).1 ≡ file other h
  Spares-continue (ok a) f h hf = (hf a).at h
  Spares-continue (err e) f h hf = refl

  pub Spares-lift :
      (r : Result A) (f : A → Exec Host B)
      → ((a : A) → r ≡ ok a → Spares other (f a))
      → Spares other (continue r f)
  Spares-lift (ok a) f hf = record { at = (hf a refl).at }
  Spares-lift (err e) f hf = record { at = λ h. refl }

  pub Spares-bind :
      (m : Exec Host A) (f : A → Exec Host B)
      → Spares other m
      → ((a : A) → Spares other (f a))
      → Spares other (m >>= f)
  Spares-bind m f hm hf = record { at = λ h. Spares-continue (m h).0 f (m h).1 hf ∙ hm.at h }

pub ruleset spares_rules = (
  Spares-call, Spares-read_file, Spares-write_file, Spares-remove, Spares-rename, Spares-pure,
  Spares-raise, Spares-if, Spares-lift, Spares-bind,
)

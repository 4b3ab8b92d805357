-- ===== src/Manager/Keeps.antt =====
-- Actions that take a condition on the records and the supervisor to another, whatever comes of them.
use openconnectd.Base.{Bool, true, false, ◌≡◌, if◌then◌else◌, Bool-cases, inl, inr}
use openconnectd.Errors.{Error, Result, ok, err}
use openconnectd.Exec
use openconnectd.Exec.{Exec, continue, ◌>>=◌, forget, attempt, wrapping, refuse}
use openconnectd.Host.{Host}
use openconnectd.Store.{Records, Store}
use openconnectd.Process.{Supervisor}
use openconnectd.Manager.{World, on_host, on_store, on_sup, guard}
use openconnectd.Manager.Instances.{when}

abbrev pub Cond : Type 1
Cond = Records → Supervisor → Type 0

-- `P` before, and `Q` behind it, also behind an error.
pub record Moves {ℓ} {A : Type ℓ} (P Q : Cond) (m : Exec World A) : Type ℓ where
  pub at : (w : World) → P w.store.records w.sup → Q (m w).1.store.records (m w).1.sup

abbrev pub Implies : Cond → Cond → Type 0
Implies P Q = (r : Records) (s : Supervisor) → P r s → Q r s

module _ {ℓ} {A : Type ℓ} {P Q : Cond} where
  pub Moves-forget : (m : Exec World A) → Moves P Q m → Moves P Q (forget m)
  Moves-forget m h = record { at = h.at }

  pub Moves-attempt : (m : Exec World A) → Moves P Q m → Moves P Q (attempt m)
  Moves-attempt m h = record { at = h.at }

  pub Moves-wrapping :
      (f : Error → Error) (m : Exec World A) → Moves P Q m → Moves P Q (wrapping f m)
  Moves-wrapping f m h = record { at = h.at }

  pub Moves-on_store :
      (m : Exec Store A)
      → ((s : Store) (p : Supervisor) → P s.records p → Q (m s).1.records p)
      → Moves P Q (on_store m)
  unfolding on_store
  Moves-on_store m h = record { at = λ w p. h (record w.store { host = w.host }) w.sup p }

  pub Moves-on_sup :
      (m : Exec Supervisor A)
      → ((r : Records) (s : Supervisor) (h : Host) → P r s → P r (record s { host = h }))
      → ((r : Records) (s : Supervisor) → P r s → Q r (m s).1)
      → Moves P Q (on_sup m)
  unfolding on_sup
  Moves-on_sup m blind h = record {
    at = λ w p.
        h w.store.records (record w.sup { host = w.host }) (blind w.store.records w.sup w.host p);
  }

module _ {ℓ} {A : Type ℓ} {P Q : Cond} (weaker : Implies P Q) where
  pub Moves-pure : (a : A) → Moves P Q (Exec.pure a)
  Moves-pure a = record { at = λ w p. weaker w.store.records w.sup p }

  pub Moves-gets : (f : World → A) → Moves P Q (λ w. (ok (f w), w))
  Moves-gets f = record { at = λ w p. weaker w.store.records w.sup p }

  pub Moves-raise : (e : Error) → Moves P Q (Exec.raise {A = A} e)
  Moves-raise e = record { at = λ w p. weaker w.store.records w.sup p }

module _ {ℓ} {A : Type ℓ} {P : Cond} where
  pub Moves-on_host : (m : Exec Host A) → Moves P P (on_host m)
  unfolding on_host
  Moves-on_host m = record { at = λ w p. p }

  pub Moves-lift : (r : Result A) → Moves P P (Exec.lift r)
  Moves-lift r = record { at = λ w p. p }

  pub Moves-if :
      (b : Bool) (m n : Exec World A) → Moves P P m → Moves P P n → Moves P P (if b then m else n)
  Moves-if true m n hm hn = hm
  Moves-if false m n hm hn = hn

module _ {P : Cond} where
  pub Moves-skip : Moves P P (Exec.skip {S = World})
  Moves-skip = record { at = λ w p. p }

  pub Moves-refuse : (b : Bool) (e : Error) → Moves P P (refuse b e)
  Moves-refuse true e = record { at = λ w p. p }
  Moves-refuse false e = record { at = λ w p. p }

  pub Moves-guard : (t : World → Bool) (e : Error) → Moves P P (guard t e)
  unfolding guard
  Moves-guard t e = record {
    at = λ w p. elim (Bool-cases (t w)) [ inl h ↦ rw (h, guard) p | inr h ↦ rw (h, guard) p ];
  }

  pub Moves-when : (b : Bool) (m : Exec World (Unit {0})) → Moves P P m → Moves P P (when b m)
  unfolding when
  Moves-when true m h = h
  Moves-when false m h = Moves-skip

module _ {ℓ κ} {A : Type ℓ} {B : Type κ} {Q R : Cond} where
  Moves-continue :
      (r : Result A) (f : A → Exec World B) (w : World)
      → Implies Q R
      → ((a : A) → Moves Q R (f a))
      → Q w.store.records w.sup
      → R (continue r f w).1.store.records (continue r f w).1.sup
  Moves-continue (ok a) f w weaker hf q = (hf a).at w q
  Moves-continue (err e) f w weaker hf q = weaker w.store.records w.sup q

module _ {ℓ κ} {A : Type ℓ} {B : Type κ} {P Q R : Cond} where
  pub Moves-then :
      (m : Exec World A) (f : A → Exec World B)
      → Implies Q R
      → Moves P Q m
      → ((a : A) → Moves Q R (f a))
      → Moves P R (m >>= f)
  Moves-then m f weaker hm hf = record {
    at = λ w p. Moves-continue (m w).0 f (m w).1 weaker hf (hm.at w p);
  }

module _ {ℓ κ} {A : Type ℓ} {B : Type κ} {P : Cond} where
  pub Moves-bind :
      (m : Exec World A) (f : A → Exec World B)
      → Moves P P m
      → ((a : A) → Moves P P (f a))
      → Moves P P (m >>= f)
  Moves-bind m f hm hf = Moves-then m f (λ r s p. p) hm hf

-- `P` before, and `Q` behind it if it succeeds.
pub record Yields {ℓ} {A : Type ℓ} (P Q : Cond) (m : Exec World A) : Type ℓ where
  pub at :
      (w : World) (a : A)
      → P w.store.records w.sup
      → (m w).0 ≡ ok a
      → Q (m w).1.store.records (m w).1.sup

module _ {ℓ} {A : Type ℓ} {P Q : Cond} where
  pub Yields-of : (m : Exec World A) → Moves P Q m → Yields P Q m
  Yields-of m h = record { at = λ w a p e. h.at w p }

module _ {ℓ κ} {A : Type ℓ} {B : Type κ} {Q R : Cond} where
  Yields-continue :
      (r : Result A) (f : A → Exec World B) (w : World) (b : B)
      → ((a : A) → Yields Q R (f a))
      → Q w.store.records w.sup
      → (continue r f w).0 ≡ ok b
      → R (continue r f w).1.store.records (continue r f w).1.sup
  Yields-continue (ok a) f w b hf q e = (hf a).at w b q e
  Yields-continue (err x) f w b hf q e = cc

module _ {ℓ κ} {A : Type ℓ} {B : Type κ} {P Q R : Cond} where
  pub Yields-bind :
      (m : Exec World A) (f : A → Exec World B)
      → Moves P Q m
      → ((a : A) → Yields Q R (f a))
      → Yields P R (m >>= f)
  Yields-bind m f hm hf = record {
    at = λ w b p e. Yields-continue (m w).0 f (m w).1 b hf (hm.at w p) e;
  }

pub ruleset moves_rules = (
  Moves-forget, Moves-attempt, Moves-wrapping, Moves-on_host, Moves-lift, Moves-if, Moves-skip,
  Moves-refuse, Moves-guard, Moves-when, Moves-bind,
)

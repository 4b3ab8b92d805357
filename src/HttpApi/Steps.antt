-- ===== src/HttpApi/Steps.antt =====
-- Answers of internal/httpapi/server.go that take a condition on the records and the supervisor to
-- another.
use openconnectd.Base.{Text, Bool-cases, inl, inr}
use openconnectd.Errors.{Result, ok, err}
use openconnectd.Exec.{Exec}
use openconnectd.Manager.{World}
use openconnectd.Manager.Keeps.{Cond, Moves}
use openconnectd.HttpApi.{Response, Server, Answer, answer, decode, auth, authorized}

pub record Steps (P : Cond) (a : Answer) : Type 0 where
  pub at : (w : World) → P w.store.records w.sup → P (a w).1.store.records (a w).1.sup

module _ {P : Cond} where
  pub Steps-auth : (token header : Text) (a : Answer) → Steps P a → Steps P (auth token header a)
  unfolding auth
  Steps-auth token header a h = record {
    at = λ w p. elim (Bool-cases (authorized token header)) [
      | inl e ↦ rw (e, auth) (h.at w p)
      | inr e ↦ rw (e, auth) p
    ];
  }

module _ {ℓ} {A : Type ℓ} {P : Cond} (s : Server) where
  pub Steps-answer :
      (code : Text) (f : A → Response) (m : Exec World A)
      → Moves P P m
      → Steps P (answer s code f m)
  unfolding answer
  Steps-answer code f m h = record { at = h.at }

  pub Steps-decode :
      (r : Result A) (k : A → Answer) → ((a : A) → Steps P (k a)) → Steps P (decode s r k)
  unfolding decode
  Steps-decode (ok a) k h = record { at = (h a).at }
  Steps-decode (err e) k h = record { at = λ w p. p }

-- ===== src/Status.antt =====
-- statusFor of internal/httpapi/server.go: the HTTP status of an error, by its text. Whether the error
-- is context.Canceled is a parameter.
use openconnectd.Base.{
  ℕ, ◌≡◌, Bool, ◌||◌, Option, none, some, Text, codes, if◌then◌else◌, leb, arith, true,
}
use openconnectd.Strings.{contains}
use openconnectd.Errors.{Error}
use openconnectd.Errors.Message.{message}

module _ (quote : Text → Text) (canceled : Error → Bool) where
  status_of : Bool → Text → ℕ
  status_of gone msg =
      if contains msg (codes "not found")
      then 404
      else if contains msg (codes "already exists")
      then 409
      else if contains msg (codes "required") || contains msg (codes "invalid")
      then 400
      else if gone
      then 408
      else 500

  unfoldable pub status_for : Option Error → ℕ
  unfolding status_of
  status_for none = 200
  status_for (some e) = status_of (canceled e) (message quote e)

  -- Every error is told by a status from 400 on.
  pub status_for-is_error : (e : Error) → leb 400 (status_for (some e)) ≡ true
  unfolding status_for status_of
  status_for-is_error e = ground arith

-- ===== src/Errors.antt =====
-- The errors that the packages under internal/ return, one constructor for each site, and results.
pub mod Message
use openconnectd.Base.{ℕ, Bool, true, false, Text, List, ◌≡◌, refl, ◌⊎◌, inl, inr}

pub data Error : Type 0 where
  -- internal/ocserv/manager.go
  instance_name_required pool_cidr_required common_name_required ip_required : Error
  instance_exists instance_not_found client_exists client_not_found : Text → Error
  ensure_ca ensure_server_cert issue_client set_password pin_static_ip revoke_failed : Error → Error
  password_required : Text → Error
  not_banned : Text → Error
  no_ban_list : List Text → Error
  cn_required cn_control : Error
  invalid_cn cn_separator invalid_static_ip : Text → Error
  -- internal/ocserv/config.go
  config_name_required tcp_port_required server_cert_required config_pool_required : Error
  client_ca_needed secret_empty : Error
  bad_pool_cidr pool_not_ipv4 : Text → Error
  -- internal/state/store.go
  unknown_instance : Text → Error
  parse_state : Text → Error → Error
  -- internal/ocserv/ocpasswd.go
  user_required : Error
  line_too_long : Error
  ocpasswd_missing : Error → Error
  ocpasswd_failed : Text → Error → Text → Error
  -- internal/ocserv/process.go
  ocserv_missing : Error → Error
  start_failed : Text → Error → Error
  not_running : Text → Error
  -- internal/ocserv/pki.go
  pki_cn_required : Error
  corrupt_ca : Text → Error
  client_cert_missing client_key_missing : Text → Error → Error
  -- internal/ocserv/occtl.go
  username_required occtl_ip_required : Error
  occtl_missing : Error → Error
  occtl_failed : List Text → Error → Text → Error
  not_banned_here : Text → Error
  parse_users parse_ban_list : Error → Error
  bad_numeric : Text → Error → Error
  -- internal/config/config.go
  config_read : Error → Error
  config_parse : Text → Error → Error
  -- pkg/api/client.go: an answer that is an error, with its code and message, or else with its body
  empty_base_url client_cn_required : Error
  api_code : Text → Text → Error
  api_message : Text → Error
  api_status : ℕ → Text → Error
  -- the operating system's: a file that is not there, by the call and the path, and any other
  not_exist : Text → Text → Error
  system : Text → Error

pub data Result {ℓ} (A : Type ℓ) : Type ℓ where
  ok : A → Result A
  err : Error → Result A

abbrev pub Ok : Type 0
Ok = Result (Unit {0})

infixl 5 ◌>>=◌ ◌>>◌
abbrev pub ◌>>=◌ {ℓ κ} : {A : Type ℓ} {B : Type κ} → Result A → (A → Result B) → Result B
ok a >>= f = f a
err e >>= f = err e

-- `if failed { return e }`
abbrev pub refuse : Bool → Error → Result (Unit {0})
refuse true e = err e
refuse false e = ok tt

abbrev pub is_ok {ℓ} : {A : Type ℓ} → Result A → Bool
is_ok (ok a) = true
is_ok (err e) = false

abbrev pub ◌>>◌ {ℓ} : {B : Type ℓ} → Result (Unit {0}) → Result B → Result B
m >> k = m >>= λ _. k

-- `fmt.Errorf("...: %w", err)` around a result
abbrev pub wrap {ℓ} : {A : Type ℓ} → (Error → Error) → Result A → Result A
wrap f (ok a) = ok a
wrap f (err e) = err (f e)

-- os.IsNotExist
abbrev pub is_not_exist : Error → Bool
is_not_exist (not_exist op path) = true
is_not_exist _ = false

pub Result-cases {ℓ} :
    {A : Type ℓ} (r : Result A) → ((a : A) × (r ≡ ok a)) ⊎ ((e : Error) × (r ≡ err e))
Result-cases (ok a) = inl (a, refl)
Result-cases (err e) = inr (e, refl)

-- A result that is an error, or that satisfies `P`.
abbrev pub Returns {ℓ κ} : {A : Type ℓ} → (A → Type κ) → Result A → Type κ
Returns P (ok a) = P a
Returns P (err e) = Unit

pub Returns-bind {ℓ κ μ} :
    {A : Type ℓ} {B : Type κ} (P : B → Type μ) (m : Result A) (f : A → Result B)
    → ((a : A) → m ≡ ok a → Returns P (f a))
    → Returns P (m >>= f)
Returns-bind P (ok a) f h = h a refl
Returns-bind P (err e) f h = tt

pub Returns-ok {ℓ κ} :
    {A : Type ℓ} (P : A → Type κ) (r : Result A) (a : A) → Returns P r → r ≡ ok a → P a
Returns-ok P r a h e = rw e at h

-- ===== src/Render/Outcome.antt =====
-- When `Render` of internal/ocserv/config.go succeeds.
use openconnectd.Base.{
  ◌≡◌, ◌≢◌, refl, ◌↔◌, ◌∙◌, Bool, true, false, [], ◌∷◌, Text, List, not, ◌&&◌, arith, is_nil,
  Bool-cases, Option-cases, inl, inr, some, length, ◌==◌, ==_iff,
}
use openconnectd.Base.Int.{is_pos}
use openconnectd.Strings.{is_blank, index_byte}
use openconnectd.Net.Cidr.{IpNet, parse_cidr}
use openconnectd.Errors.{Result, ok, err, is_ok, ◌>>=◌, Result-cases}
use openconnectd.Render.{
  InstanceConfig, validate, auth_lines, camouflage_lines, network_lines, render_lines, render,
  wants_cert, emit,
}
use openconnectd.Render.Network.{split_cidr}

-- net.ParseCIDR reads a network with the mask of an IPv4 address, which has four bytes.
abbrev pub IsPool : Text → Type 0
IsPool cidr = (net : IpNet) × (parse_cidr cidr ≡ some net) × (length net.mask ≡ 4)

-- What a config has to have.
pub record IsRenderable (c : InstanceConfig) : Type 0 where
  pub name : is_blank c.name ≡ false
  pub port : is_pos c.tcp_port ≡ true
  pub cert : c.server_cert ≢ []
  pub key : c.server_key ≢ []
  pub ca : wants_cert c.auth_mode ≡ true → c.ca_cert ≢ []
  pub secret : c.camouflage.enabled ≡ true → c.camouflage.secret ≢ []
  pub pool : IsPool c.pool_cidr

is_ok-bind {ℓ κ} :
    {A : Type ℓ} {B : Type κ} (m : Result A) (f : A → B) → is_ok (m >>= λ a. ok (f a)) ≡ is_ok m
is_ok-bind (ok a) f = refl
is_ok-bind (err e) f = refl

is_ok-bind_const {ℓ κ} :
    {A : Type ℓ} {B : Type κ} (m : Result A) (f : A → Result B) (b : Bool)
    → ((a : A) → is_ok (f a) ≡ b)
    → is_ok (m >>= f) ≡ (is_ok m && b)
is_ok-bind_const (ok a) f b h = h a
is_ok-bind_const (err e) f b h = refl

is_nil_iff {ℓ} : {A : Type ℓ} (t : List A) → (is_nil t ≡ false) ↔ (t ≢ [])
is_nil_iff [] = ground arith
is_nil_iff (x ∷ t) = ground arith

split_cidr_iff : (cidr : Text) → (is_ok (split_cidr cidr) ≡ true) ↔ IsPool cidr
unfolding split_cidr
split_cidr_iff cidr = elim (Option-cases (parse_cidr cidr)) [
  | inl bad ↦
      rw (bad, split_cidr) (λ e. absurd (ground arith), λ (net, e, l). absurd (ground arith))
  | inr (net, good) ↦ elim (Bool-cases (length net.mask == 4)) [
    | inl four ↦
        rw (good, four, split_cidr)
          (λ e. (net, refl, (==_iff (length net.mask) 4).0 four), λ p. refl)
    | inr other ↦
        rw (good, other, split_cidr)
          (
            λ e. absurd (ground arith),
            λ (net', e, l). absurd (ground (arith, ==_iff (length net.mask) 4)),
          )
  ]
]

split_cidr-nil : is_ok (split_cidr []) ≡ false
unfolding split_cidr parse_cidr index_byte
split_cidr-nil = refl

pool_given : (cidr : Text) → is_ok (split_cidr cidr) ≡ true → is_nil cidr ≡ false
pool_given [] h = ground (arith, split_cidr-nil)
pool_given (x ∷ cidr) h = refl

module _ (c : InstanceConfig) where
  -- The tests that the four parts of the rendering make.
  abbrev validates : Bool
  validates =
      not (is_blank c.name)
      && is_pos c.tcp_port
      && not (is_nil c.server_cert)
      && not (is_nil c.server_key)
      && not (is_nil c.pool_cidr)

  is_ok-validate : is_ok (validate c) ≡ validates
  unfolding validate
  is_ok-validate = ground arith

  is_ok-auth_lines : is_ok (auth_lines c) ≡ not (wants_cert c.auth_mode && is_nil c.ca_cert)
  unfolding auth_lines
  is_ok-auth_lines = elim (Bool-cases (wants_cert c.auth_mode)) [
    | inl wants ↦ rw (wants, auth_lines) (ground arith)
    | inr other ↦ rw (other, auth_lines)
  ]

  is_ok-camouflage_lines :
      is_ok (camouflage_lines c.camouflage)
      ≡ not (c.camouflage.enabled && is_nil c.camouflage.secret)
  unfolding camouflage_lines
  is_ok-camouflage_lines = ground arith

  is_ok-network_lines : is_ok (network_lines c) ≡ is_ok (split_cidr c.pool_cidr)
  unfolding network_lines
  is_ok-network_lines = elim (Result-cases (split_cidr c.pool_cidr)) [
    | inl (a, e) ↦ rw e
    | inr (x, e) ↦ rw e
  ]

  is_ok-render :
      (quote : Text → Text)
      → is_ok (render quote c) ≡ (
          is_ok (validate c)
          && (is_ok (auth_lines c)
              && (is_ok (camouflage_lines c.camouflage) && is_ok (network_lines c))))
  unfolding render render_lines
  is_ok-render quote =
      is_ok-bind (render_lines quote c) emit
      ∙ is_ok-bind_const (validate c) _ _ (λ _. is_ok-bind_const (auth_lines c) _ _ (λ auth.
        is_ok-bind_const (camouflage_lines c.camouflage) _ _
          (λ cam. is_ok-bind (network_lines c) _)))

tests_iff :
    (c : InstanceConfig)
    → ((validates c
          && (not (wants_cert c.auth_mode && is_nil c.ca_cert)
              && (not (c.camouflage.enabled && is_nil c.camouflage.secret)
                  && is_ok (split_cidr c.pool_cidr))))
        ≡ true)
      ↔ IsRenderable c
tests_iff c = (
  λ h. record {
    name = ground arith;
    port = ground arith;
    cert = ground (arith, is_nil_iff c.server_cert);
    key = ground (arith, is_nil_iff c.server_key);
    ca = λ w. ground (arith, is_nil_iff c.ca_cert);
    secret = λ e. ground (arith, is_nil_iff c.camouflage.secret);
    pool = (split_cidr_iff c.pool_cidr).0 (ground arith);
  },
  λ h.
      let pool : is_ok (split_cidr c.pool_cidr) ≡ true = (split_cidr_iff c.pool_cidr).1 h.pool in
      ground (
        arith,
        is_nil_iff c.server_cert,
        is_nil_iff c.server_key,
        is_nil_iff c.ca_cert,
        is_nil_iff c.camouflage.secret,
        pool_given c.pool_cidr pool,
      ),
)

-- `Render` returns a file exactly for the configs with a name that is not blank, a positive TCP port, a
-- server certificate and its key, the CA where certificates are asked for, a secret where camouflage is
-- on, and a pool that net.ParseCIDR reads as an IPv4 network, whatever else they hold.
pub render_iff :
    (quote : Text → Text) (c : InstanceConfig) → (is_ok (render quote c) ≡ true) ↔ IsRenderable c
render_iff quote c =
    rw
      (
        is_ok-render c quote,
        is_ok-validate c,
        is_ok-auth_lines c,
        is_ok-camouflage_lines c,
        is_ok-network_lines c,
      )
      (tests_iff c)

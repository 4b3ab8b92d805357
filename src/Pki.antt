-- ===== src/Pki.antt =====
-- internal/ocserv/pki.go: the CA of each instance, the certificates that it issues, and its list of
-- revoked serials. crypto/x509, crypto/rsa and encoding/pem are the parameter `Crypto`, a parsed
-- certificate or key is the DER that it was parsed from, and a time is in seconds.
pub mod Serial
pub mod Authority
pub mod Certs
pub mod Revoked
use openconnectd.Base.{
  ℕ, suc, ◌+◌, ◌-◌, ◌*◌, ◌^◌, ◌%◌, ltb, Bool, true, false, ◌&&◌, List, [], ◌∷◌, ◌++◌, Option, none,
  some, is_some, Text, codes, is_nil, if◌then◌else◌,
}
use openconnectd.Base.Int.{ℤ, pos, negsuc}
use openconnectd.Base.Dict.{Dict, lookup, insert}
use openconnectd.Strings.{is_blank}
use openconnectd.FilePath.{join}
use openconnectd.Pki.Serial.{format_hex, parse_hex}
use openconnectd.Errors.{
  Error, Result, ok, err, Ok, wrap, pki_cn_required, corrupt_ca, client_cert_missing,
  client_key_missing, is_not_exist, is_ok,
}
use openconnectd.Exec.{
  Exec, continue, ◌>>=◌, ◌>>◌, refuse, pure, skip, lift, attempt, wrapping, gets,
}
use openconnectd.Host.{Env, Host, call, read_file, write_file}

pub data Purpose : Type 0 where
  authority client : Purpose
  server : List Text → Purpose

-- x509.Certificate, as far as the program fills it in.
pub record Template : Type 0 where
  pub serial : ℕ
  pub common_name : Text
  pub not_before : ℕ
  pub not_after : ℕ
  pub purpose : Purpose

-- x509.RevocationList
pub record RevocationList : Type 0 where
  pub number : ℕ
  pub this_update : ℕ
  pub next_update : ℕ
  pub revoked : List (ℤ × ℕ)

-- The key and the number that a call draws at random; CreateCertificate from a template, its parent
-- (`none` is the template itself), the key that is certified and the one that signs; the other
-- functions under their own names.
pub record Crypto : Type 0 where
  pub key_at : ℕ → Text
  pub random_at : ℕ → ℕ
  pub create_certificate : Template → Option Text → Text → Text → Result Text
  pub create_revocation_list : RevocationList → Text → Text → Result Text
  pub encode_pem : Text → Text → Text
  pub decode_pem : Text → Option Text
  pub parse_certificate : Text → Ok
  pub parse_private_key : Text → Ok
  pub marshal_revoked : Dict ℕ → Text
  pub unmarshal_revoked : Text → Result (Dict ℕ)

pub record IssuedCert : Type 0 where
  pub bundle_pem : Text
  pub cert_pem : Text
  pub key_pem : Text
  pub serial : Text
  pub not_after : ℕ

abbrev pub hour : ℕ
hour = 3600

abbrev pub year : ℕ
year = 365 * 24 * 3600

-- The paths under the root.
module _ (root : Text) where
  unfoldable pub dir : Text → Text
  dir instance' = join root instance'

  unfoldable pub ca_cert_path : Text → Text
  ca_cert_path i = join (dir i) (codes "ca.pem")

  unfoldable pub ca_key_path : Text → Text
  ca_key_path i = join (dir i) (codes "ca.key")

  unfoldable pub crl_path : Text → Text
  crl_path i = join (dir i) (codes "crl.pem")

  unfoldable pub revoked_path : Text → Text
  revoked_path i = join (dir i) (codes "revoked.json")

  unfoldable pub server_cert_path : Text → Text
  server_cert_path i = join (dir i) (codes "server.pem")

  unfoldable pub server_key_path : Text → Text
  server_key_path i = join (dir i) (codes "server.key")

  unfoldable pub client_base : Text → Text → Text
  client_base i serial = join (join (dir i) (codes "clients")) serial

-- Both PEM blocks are there, or the CA is corrupt.
abbrev pub both_blocks : Text → Option Text → Option Text → Result (Text × Text)
both_blocks i (some cert) (some key) = ok (cert, key)
both_blocks i none key = err (corrupt_ca i)
both_blocks i (some cert) none = err (corrupt_ca i)

-- SetString(hexSerial, 16); a serial that is no number is passed over.
unfoldable pub entries : Dict ℕ → List (ℤ × ℕ)
entries [] = []
entries ((serial, at) ∷ revoked) =
    let rest = entries revoked in elim (parse_hex serial) [ none ↦ rest | some n ↦ (n, at) ∷ rest ]

abbrev value {ℓ} : {A : Type ℓ} → A → Ok → Result A
value a (ok u) = ok a
value a (err e) = err e

abbrev pub ttl_seconds : ℤ → ℕ
ttl_seconds ttl = elim ttl [ pos n ↦ if ltb 0 n then n else year | negsuc n ↦ year ]

abbrev pub first_or : Text → List Text → Text
first_or def [] = def
first_or def (h ∷ hosts) = h

module _ (env : Env) (crypto : Crypto) where
  unfoldable pub now : Exec Host ℕ
  now h = (ok (env.clock h.calls), h)

  pub generate_key : Exec Host Text
  generate_key h = let (r, h') = call env h in (value (crypto.key_at h.calls) r, h')

  -- 128 random bits, or the clock in nanoseconds if there is no randomness
  unfoldable pub new_serial : Exec Host ℕ
  new_serial h =
      let (r, h') = call env h in
      (
        ok (if is_ok r then crypto.random_at h.calls % 2 ^ 128 else env.clock h.calls * 1000000000),
        h',
      )

  unfoldable pub write_pem : Text → Text → Text → Exec Host (Unit {0})
  write_pem path kind der = write_file env path (crypto.encode_pem kind der)

  -- os.Stat: the call succeeds, and there is such a file, whether it can be read or not.
  pub file_exists : Text → Exec Host Bool
  file_exists path h =
      let (r, h') = call env h in (ok (is_ok r && is_some (lookup path h.files)), h')

-- ===== src/Pki/Authority.antt =====
-- The CA of an instance, and the list that it signs (internal/ocserv/pki.go: EnsureCA, loadCA, writeCRL).
pub mod Laws
use openconnectd.Base.{
  ℕ, suc, ◌+◌, ◌-◌, ◌*◌, ◌^◌, ◌%◌, ltb, Bool, true, false, ◌&&◌, List, [], ◌∷◌, ◌++◌, Option, none,
  some, is_some, Text, codes, is_nil, if◌then◌else◌,
}
use openconnectd.Base.Int.{ℤ, pos, negsuc}
use openconnectd.Base.Dict.{Dict, lookup, insert}
use openconnectd.Strings.{is_blank}
use openconnectd.FilePath.{join}
use openconnectd.Pki.Serial.{format_hex, parse_hex}
use openconnectd.Errors.{
  Error, Result, ok, err, Ok, wrap, pki_cn_required, corrupt_ca, client_cert_missing,
  client_key_missing, is_not_exist, is_ok,
}
use openconnectd.Exec.{
  Exec, continue, ◌>>=◌, ◌>>◌, refuse, pure, skip, lift, attempt, wrapping, gets,
}
use openconnectd.Host.{Env, Host, call, read_file, write_file}
use openconnectd.Pki.{
  Purpose, authority, client, server, Template, RevocationList, Crypto, IssuedCert, hour, year, dir,
  ca_cert_path, ca_key_path, crl_path, revoked_path, server_cert_path, server_key_path, client_base,
  both_blocks, entries, ttl_seconds, first_or, now, generate_key, new_serial, write_pem,
  file_exists,
}

abbrev pub list_at : ℕ → ℕ → Dict ℕ → RevocationList
list_at number t revoked = record {
  number = number;
  this_update = t - hour;
  next_update = t + 30 * 24 * hour;
  revoked = entries revoked;
}

module _ (env : Env) (crypto : Crypto) (root : Text) where
  unfoldable pub load_ca : Text → Exec Host (Text × Text)
  load_ca i = do
    cert ← read_file env (ca_cert_path root i)
    key ← read_file env (ca_key_path root i)
    blocks ← lift (both_blocks i (crypto.decode_pem cert) (crypto.decode_pem key))
    lift (crypto.parse_certificate blocks.0)
    lift (crypto.parse_private_key blocks.1)
    pure blocks

  unfoldable pub write_crl : Text → Dict ℕ → Exec Host (Unit {0})
  write_crl i revoked = do
    ca ← load_ca i
    number ← new_serial env crypto
    t ← now env crypto
    der ← lift (crypto.create_revocation_list (list_at number t revoked) ca.0 ca.1)
    write_pem env crypto (crl_path root i) (codes "X509 CRL") der

  pub create_ca : Text → Exec Host Text
  create_ca i = do
    key ← generate_key env crypto
    serial ← new_serial env crypto
    t ← now env crypto
    der ← lift (
        crypto.create_certificate
          (record {
            serial = serial;
            common_name = codes "openconnectd CA " ++ i;
            not_before = t - hour;
            not_after = t + 10 * year;
            purpose = authority;
          })
          none key key)
    write_pem env crypto (ca_cert_path root i) (codes "CERTIFICATE") der
    write_pem env crypto (ca_key_path root i) (codes "RSA PRIVATE KEY") key
    write_crl i []
    lift (crypto.parse_certificate der)
    pure der

  -- A CA that can be loaded is kept; any other is replaced.
  pub keep_ca : Text → Result (Text × Text) → Exec Host Text
  keep_ca i (ok ca) = pure ca.0
  keep_ca i (err e) = create_ca i

  pub ensure_ca : Text → Exec Host Text
  ensure_ca i = do call env; found ← attempt (load_ca i); keep_ca i found

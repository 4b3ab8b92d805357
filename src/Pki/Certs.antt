-- ===== src/Pki/Certs.antt =====
-- The certificates of clients and of the server (internal/ocserv/pki.go: IssueClient, ClientBundle,
-- EnsureServerCert).
use openconnectd.Base.{◌+◌, ◌-◌, ◌*◌, Bool, true, false, List, ◌++◌, none, some, Text, codes}
use openconnectd.Base.Int.{ℤ}
use openconnectd.Strings.{is_blank}
use openconnectd.Pki.Serial.{format_hex}
use openconnectd.Errors.{pki_cn_required, client_cert_missing, client_key_missing}
use openconnectd.Exec.{Exec, ◌>>=◌, ◌>>◌, refuse, pure, skip, lift, wrapping}
use openconnectd.Host.{Env, Host, call, read_file, write_file}
use openconnectd.Pki.{
  client, server, Crypto, IssuedCert, hour, year, ca_cert_path, server_cert_path, server_key_path,
  client_base, ttl_seconds, first_or, now, generate_key, new_serial, write_pem, file_exists,
}
use openconnectd.Pki.Authority.{load_ca}

pub unless : Bool → Exec Host (Unit {0}) → Exec Host (Unit {0})
unless true m = skip
unless false m = m

module _ (env : Env) (crypto : Crypto) (root : Text) where
  pub issue_client : Text → Text → ℤ → Exec Host IssuedCert
  issue_client i cn ttl = do
    refuse (is_blank cn) pki_cn_required
    ca ← load_ca env crypto root i
    key ← generate_key env crypto
    serial ← new_serial env crypto
    t ← now env crypto
    der ← lift (
        crypto.create_certificate
          (record {
            serial = serial;
            common_name = cn;
            not_before = t - hour;
            not_after = t + ttl_seconds ttl;
            purpose = client;
          })
          (some ca.0) key ca.1)
    ca_pem ← read_file env (ca_cert_path root i)
    call env
    let cert_pem = crypto.encode_pem (codes "CERTIFICATE") der
    let key_pem = crypto.encode_pem (codes "RSA PRIVATE KEY") key
    write_file env (client_base root i (format_hex serial) ++ codes ".pem") cert_pem
    write_file env (client_base root i (format_hex serial) ++ codes ".key") key_pem
    pure (record {
      bundle_pem = cert_pem ++ key_pem ++ ca_pem;
      cert_pem = cert_pem;
      key_pem = key_pem;
      serial = format_hex serial;
      not_after = t + ttl_seconds ttl;
    })

  pub client_bundle : Text → Text → Exec Host Text
  client_bundle i serial = do
    cert ←
        wrapping (client_cert_missing serial)
          (read_file env (client_base root i serial ++ codes ".pem"))
    key ←
        wrapping (client_key_missing serial)
          (read_file env (client_base root i serial ++ codes ".key"))
    ca ← read_file env (ca_cert_path root i)
    pure (cert ++ key ++ ca)

  pub make_server_cert : Text → List Text → Exec Host (Unit {0})
  make_server_cert i hosts = do
    call env
    key ← generate_key env crypto
    serial ← new_serial env crypto
    t ← now env crypto
    der ← lift (
        crypto.create_certificate
          (record {
            serial = serial;
            common_name = first_or i hosts;
            not_before = t - hour;
            not_after = t + 2 * year;
            purpose = server hosts;
          })
          none key key)
    write_pem env crypto (server_cert_path root i) (codes "CERTIFICATE") der
    write_pem env crypto (server_key_path root i) (codes "RSA PRIVATE KEY") key

  pub both_exist : Text → Bool → Exec Host Bool
  both_exist i true = file_exists env crypto (server_key_path root i)
  both_exist i false = pure false

  pub ensure_server_cert : Text → List Text → Exec Host (Unit {0})
  ensure_server_cert i hosts = do
    cert ← file_exists env crypto (server_cert_path root i)
    both ← both_exist i cert
    unless both (make_server_cert i hosts)

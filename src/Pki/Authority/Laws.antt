-- ===== src/Pki/Authority/Laws.antt =====
-- The list that internal/ocserv/pki.go publishes: loadCA, writeCRL.
use openconnectd.Base.{ℕ, ◌≡◌, refl, sym, ap, ◌∙◌, List, none, some, Option, Text, codes, arith}
use openconnectd.Base.Int.{ℤ}
use openconnectd.Base.Dict.{Dict, lookup}
use openconnectd.Errors.{Ok, ok, err}
use openconnectd.Exec
use openconnectd.Exec.{Exec, ◌>>=◌, ◌>>◌, continue, continue-eq-ok}
use openconnectd.Exec.Ensures.{Ensures, Ensures-bind, Ensures-lift}
use openconnectd.Host.{Env, Host, read_file}
use openconnectd.Host.Laws.{file, files-read_file, read_file-file, write_file_self}
use openconnectd.Pki.{
  Crypto, RevocationList, ca_cert_path, ca_key_path, crl_path, entries, both_blocks, write_pem,
  new_serial, now,
}
use openconnectd.Pki.Authority.{load_ca, write_crl, list_at}

-- The certificate and the key in the files of the CA.
pub record IsCa (crypto : Crypto) (root i : Text) (h : Host) (cert key : Text) : Type 0 where
  pub cert_file : Text
  pub key_file : Text
  pub has_cert : file (ca_cert_path root i) h ≡ some cert_file
  pub has_key : file (ca_key_path root i) h ≡ some key_file
  pub is_cert : crypto.decode_pem cert_file ≡ some cert
  pub is_key : crypto.decode_pem key_file ≡ some key

-- The list that is published: one with these serials, that the certificate and the key in the files of
-- the CA signed.
abbrev pub Published : Crypto → Text → Text → List (ℤ × ℕ) → Host → Host → Type 0
Published crypto root i serials before after =
    (l : RevocationList) × (cert : Text) × (key : Text) × (der : Text) × IsCa crypto root i before
      cert key
    × (crypto.create_revocation_list l cert key ≡ ok der)
    × (l.revoked ≡ serials)
    × (file (crl_path root i) after ≡ some (crypto.encode_pem (codes "X509 CRL") der))

pub Published-same :
    (crypto : Crypto) (root i : Text) (serials : List (ℤ × ℕ)) (h h' after : Host)
    → file (ca_cert_path root i) h' ≡ file (ca_cert_path root i) h
    → file (ca_key_path root i) h' ≡ file (ca_key_path root i) h
    → Published crypto root i serials h' after
    → Published crypto root i serials h after
Published-same crypto root i serials h h' after ec ek
      (l, cert, key, der, ca, signed, listed, there) =
    (
      l,
      cert,
      key,
      der,
      record {
        cert_file = ca.cert_file;
        key_file = ca.key_file;
        has_cert = sym ec ∙ ca.has_cert;
        has_key = sym ek ∙ ca.has_key;
        is_cert = ca.is_cert;
        is_key = ca.is_key;
      },
      signed,
      listed,
      there,
    )

both_blocks-ok :
    (i : Text) (c k : Option Text) (b : Text × Text)
    → both_blocks i c k ≡ ok b
    → (c ≡ some b.0) × (k ≡ some b.1)
both_blocks-ok i (some c) (some k) b e = ground arith
both_blocks-ok i none k b e = absurd (ground arith)
both_blocks-ok i (some c) none b e = absurd (ground arith)

both_parse-ok :
    (c k : Ok) (b ca : Text × Text) (h : Host)
    → (continue c (λ _. Exec.lift k >> Exec.pure b) h).0 ≡ ok ca
    → b ≡ ca
both_parse-ok (ok _) (ok _) b ca h e = ground arith
both_parse-ok (ok _) (err y) b ca h e = absurd (ground arith)
both_parse-ok (err x) k b ca h e = absurd (ground arith)

module _ (env : Env) (crypto : Crypto) (root : Text) where
  load_ca-IsCa :
      (i : Text) (h : Host) (ca : Text × Text)
      → (load_ca env crypto root i h).0 ≡ ok ca
      → IsCa crypto root i h ca.0 ca.1
  unfolding load_ca
  load_ca-IsCa i h ca good =
      let cert_path = ca_cert_path root i in
      let key_path = ca_key_path root i in
      let h' = (read_file env cert_path h).1 in
      let (c, ec, e1) = continue-eq-ok (read_file env cert_path h).0 _ h' good in
      let good1 = ap (λ o. o.0) (sym e1) ∙ good in
      let (k, ek, e2) =
        continue-eq-ok (read_file env key_path h').0 _ (read_file env key_path h').1 good1 in
      let good2 = ap (λ o. o.0) (sym e2) ∙ good1 in
      let h'' = (read_file env key_path h').1 in
      let (b, eb, e3) =
        continue-eq-ok (both_blocks i (crypto.decode_pem c) (crypto.decode_pem k)) _ h'' good2 in
      let same_blocks : b ≡ ca =
        both_parse-ok (crypto.parse_certificate b.0) (crypto.parse_private_key b.1) b ca h''
          (ap (λ o. o.0) (sym e3) ∙ good2) in
      let (is_cert, is_key) =
        both_blocks-ok i (crypto.decode_pem c) (crypto.decode_pem k) ca (eb ∙ ap ok same_blocks) in
      record {
        cert_file = c;
        key_file = k;
        has_cert = read_file-file env h cert_path c ec;
        has_key =
            sym (ap (lookup key_path) (files-read_file env h cert_path))
            ∙ read_file-file env h' key_path k ek;
        is_cert = is_cert;
        is_key = is_key;
      }

  -- What writeCRL does behind loadCA.
  abbrev publish : Text → Dict ℕ → Text × Text → Exec Host (Unit {0})
  publish i revoked ca = do
    number ← new_serial env crypto
    t ← now env crypto
    der ← Exec.lift (crypto.create_revocation_list (list_at number t revoked) ca.0 ca.1)
    write_pem env crypto (crl_path root i) (codes "X509 CRL") der

  Ensures-publish :
      (i : Text) (revoked : Dict ℕ) (ca : Text × Text) (before : Host)
      → IsCa crypto root i before ca.0 ca.1
      → Ensures (Published crypto root i (entries revoked) before) (publish i revoked ca)
  unfolding write_pem
  Ensures-publish i revoked ca before h = Ensures-bind (new_serial env crypto) _ λ number.
      Ensures-bind (now env crypto) _ λ t.
        Ensures-lift (crypto.create_revocation_list (list_at number t revoked) ca.0 ca.1) _
          λ der signed. record {
            at = λ s _ e. (
              list_at number t revoked,
              ca.0,
              ca.1,
              der,
              h,
              signed,
              refl,
              write_file_self env s (crl_path root i) (crypto.encode_pem (codes "X509 CRL") der) e,
            );
          }

  pub write_crl-Published :
      (i : Text) (revoked : Dict ℕ) (h : Host)
      → (write_crl env crypto root i revoked h).0 ≡ ok tt
      → Published crypto root i (entries revoked) h (write_crl env crypto root i revoked h).1
  unfolding write_crl
  write_crl-Published i revoked h good =
      let (r, h') = load_ca env crypto root i h in
      let (ca, e, eq) = continue-eq-ok r (publish i revoked) h' good in
      rw eq (
        (Ensures-publish i revoked ca h (load_ca-IsCa i h ca e)).at h' tt
          (ap (λ o. o.0) (sym eq) ∙ good))

-- ===== src/Pki/Revoked/Laws.antt =====
-- What a revocation leaves behind (internal/ocserv/pki.go: RevokeClient).
use openconnectd.Base.{
  ℕ, same, ◌≡◌, ◌≢◌, sym, ap, ◌∙◌, refl, true, [], ◌∷◌, some, is_some, Text, any, arith, same_iff,
  Bool-cases, ◌⊎◌, inl, inr,
}
use openconnectd.Base.Int.{ℤ, same_int, same_int_iff}
use openconnectd.Base.Dict.{Dict, lookup, insert}
use openconnectd.Errors.{ok, Result-cases}
use openconnectd.Exec.{continue-eq-ok}
use openconnectd.FilePath.{is_rooted, stack_of}
use openconnectd.FilePath.Laws.{join-apart}
use openconnectd.Host.{Env, Host, write_file}
use openconnectd.Host.Laws.{files-read_file, write_file-other}
use openconnectd.Pki.{Crypto, dir, ca_cert_path, ca_key_path, revoked_path, entries}
use openconnectd.Pki.Authority.{write_crl}
use openconnectd.Pki.Serial.{parse_hex}
use openconnectd.Pki.Authority.Laws.{Published, Published-same, write_crl-Published}
use openconnectd.Pki.Revoked.{load_revoked, add_revoked, revoke_loaded, revoke_client, is_revoked}

-- A revoked serial that is a number is in the list that is signed.
entries-insert :
    (serial : Text) (t : ℕ) (n : ℤ) (revoked : Dict ℕ)
    → parse_hex serial ≡ some n
    → any (λ e. same_int e.0 n) (entries (insert serial t revoked)) ≡ true
unfolding entries insert
entries-insert serial t n [] e = ground (arith, same_int_iff n n)
entries-insert serial t n ((j, u) ∷ revoked) e =
    ground (arith, entries-insert serial t n revoked e, same_int_iff n n, same_iff j serial)

module _ (env : Env) (crypto : Crypto) (root : Text) where
  -- The serial is in the file of revoked serials, or the list with it is published: the serials of that
  -- file and this one, signed by the CA as its files were before. A serial that is no hexadecimal
  -- number stands in the file only.
  abbrev pub Revoked : Text → Text → Host → Host → Type 0
  Revoked i serial before after =
      (is_revoked env crypto root i serial before ≡ true)
      ⊎ ((revoked : Dict ℕ) × (t : ℕ) × ((load_revoked env crypto root i before).0 ≡ ok revoked)
          × Published crypto root i (entries (insert serial t revoked)) before after
          × ((n : ℤ)
              → parse_hex serial ≡ some n
              → any (λ e. same_int e.0 n) (entries (insert serial t revoked)) ≡ true))

  files-load_revoked : (i : Text) (h : Host) → (load_revoked env crypto root i h).1.files ≡ h.files
  unfolding load_revoked
  files-load_revoked i h = files-read_file env h (revoked_path root i)

  module _ (i : Text) (rooted : is_rooted (dir root i) ≡ true)
      (deep : stack_of (dir root i) ≢ []) where
    cert-apart : revoked_path root i ≢ ca_cert_path root i
    unfolding revoked_path ca_cert_path same
    cert-apart = join-apart (dir root i) _ _ rooted deep refl refl (ground arith)

    key-apart : revoked_path root i ≢ ca_key_path root i
    unfolding revoked_path ca_key_path same
    key-apart = join-apart (dir root i) _ _ rooted deep refl refl (ground arith)

    add_revoked-Published :
        (revoked : Dict ℕ) (h : Host)
        → (add_revoked env crypto root i revoked h).0 ≡ ok tt
        → Published crypto root i (entries revoked) h (add_revoked env crypto root i revoked h).1
    unfolding add_revoked
    add_revoked-Published revoked h good =
        let data' = crypto.marshal_revoked revoked in
        let path = revoked_path root i in
        let (r, h') = write_file env path data' h in
        let (u, e, eq) = continue-eq-ok r (λ _. write_crl env crypto root i revoked) h' good in
        rw eq (
          Published-same crypto root i (entries revoked) h h'
            (write_crl env crypto root i revoked h').1
            (write_file-other env h path data' (ca_cert_path root i) cert-apart)
            (write_file-other env h path data' (ca_key_path root i) key-apart)
            (write_crl-Published env crypto root i revoked h' (ap (λ o. o.0) (sym eq) ∙ good)))

    -- The instance's directory is absolute, and not the root. If RevokeClient succeeds, then the serial
    -- was in the file of revoked serials before, and nothing is said of the list; or the CRL file has a
    -- list of the serials of that file and this one, made with the certificate and the key that the
    -- CA's files had before. The serial is on the list if it is a hexadecimal number; one that is not
    -- is left out of it.
    pub revoke_client_lem :
        (serial : Text) (h : Host)
        → (revoke_client env crypto root i serial h).0 ≡ ok tt
        → Revoked i serial h (revoke_client env crypto root i serial h).1
    unfolding is_revoked revoke_client revoke_loaded
    revoke_client_lem serial h = elim (Result-cases (load_revoked env crypto root i h).0) [
      | inl (revoked, e) ↦ elim (Bool-cases (is_some (lookup serial revoked))) [
        | inl there ↦ rw (e, there, revoke_client, is_revoked) (λ _. inl refl)
        | inr new ↦
            let h' = (load_revoked env crypto root i h).1 in
            let t = env.clock h'.calls in
            let files = files-load_revoked i h in
            rw (e, new, revoke_client, is_revoked)
              (λ done. inr (
                revoked,
                t,
                refl,
                Published-same crypto root i (entries (insert serial t revoked)) h h'
                    (add_revoked env crypto root i (insert serial t revoked) h').1
                    (ap (lookup (ca_cert_path root i)) files)
                    (ap (lookup (ca_key_path root i)) files)
                    (add_revoked-Published (insert serial t revoked) h' done),
                λ n. entries-insert serial t n revoked,
              ))
      ]
      | inr (x, e) ↦ rw (e, revoke_client) (λ no. absurd (ground arith))
    ]

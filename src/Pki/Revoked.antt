-- ===== src/Pki/Revoked.antt =====
-- The serials that are revoked (internal/ocserv/pki.go: RevokeClient, IsRevoked, loadRevoked). A file
-- that holds `null` is not modelled: writing to the nil map that it gives would panic.
pub mod Laws
use openconnectd.Base.{
  ℕ, suc, ◌+◌, ◌-◌, ◌*◌, ◌^◌, ◌%◌, ltb, Bool, true, false, ◌&&◌, List, [], ◌∷◌, ◌++◌, Option, none,
  some, is_some, Text, codes, is_nil, if◌then◌else◌,
}
use openconnectd.Base.Int.{ℤ, pos, negsuc}
use openconnectd.Base.Dict.{Dict, lookup, insert}
use openconnectd.Strings.{is_blank}
use openconnectd.FilePath.{join}
use openconnectd.Pki.Serial.{format_hex, parse_hex}
use openconnectd.Errors.{
  Error, Result, ok, err, Ok, wrap, pki_cn_required, corrupt_ca, client_cert_missing,
  client_key_missing, is_not_exist, is_ok,
}
use openconnectd.Exec.{
  Exec, continue, ◌>>=◌, ◌>>◌, refuse, pure, skip, lift, attempt, wrapping, gets,
}
use openconnectd.Host.{Env, Host, call, read_file, write_file}
use openconnectd.Pki.{
  Purpose, authority, client, server, Template, RevocationList, Crypto, IssuedCert, hour, year, dir,
  ca_cert_path, ca_key_path, crl_path, revoked_path, server_cert_path, server_key_path, client_base,
  both_blocks, entries, ttl_seconds, first_or, now, generate_key, new_serial, write_pem,
  file_exists,
}
use openconnectd.Pki.Authority.{write_crl}

unfoldable pub revoked_of : Crypto → Result Text → Result (Dict ℕ)
revoked_of crypto (ok data') = if is_nil data' then ok [] else crypto.unmarshal_revoked data'
revoked_of crypto (err e) = if is_not_exist e then ok [] else err e

module _ (env : Env) (crypto : Crypto) (root : Text) where
  unfoldable pub load_revoked : Text → Exec Host (Dict ℕ)
  load_revoked i h =
      let (r, h') = read_file env (revoked_path root i) h in (revoked_of crypto r, h')

  unfoldable pub add_revoked : Text → Dict ℕ → Exec Host (Unit {0})
  add_revoked i revoked = do
    write_file env (revoked_path root i) (crypto.marshal_revoked revoked)
    write_crl env crypto root i revoked

  -- A serial that is in the file already is done.
  unfoldable pub revoke_loaded : Text → Text → Dict ℕ → Exec Host (Unit {0})
  revoke_loaded i serial revoked h =
      if is_some (lookup serial revoked)
      then (ok tt, h)
      else add_revoked i (insert serial (env.clock h.calls) revoked) h

  unfoldable pub revoke_client : Text → Text → Exec Host (Unit {0})
  revoke_client i serial = load_revoked i >>= revoke_loaded i serial

  unfoldable pub is_revoked : Text → Text → Host → Bool
  is_revoked i serial h = elim (load_revoked i h).0 [
    | ok revoked ↦ is_some (lookup serial revoked)
    | err e ↦ false
  ]

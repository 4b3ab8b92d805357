-- ===== src/Params/Listen.antt =====
-- parseListenPort of internal/ocserv/manager.go on an address of the usual form.
use openconnectd.Base.{
  ℕ, ◌<◌, ◌^◌, ◌≡◌, refl, true, [], ◌∷◌, ◌++◌, some, Text, arith, all, all-append, All,
}
use openconnectd.Base.Int.{ℤ, pos}
use openconnectd.Strings.{last_index_byte, atoi, format_nat, is_visible, trim_space-visible}
use openconnectd.Strings.Decimal.Laws.{IsDigit, format_nat-IsDigit, atoi-format_nat}
use openconnectd.Net.HostPort.{split_host_port, is_host_byte, host_bytes, split_host_port-join}
use openconnectd.Params.{parse_listen_port, port_of, port_of_host_port}

digits-host : (s : Text) → All IsDigit s → all is_host_byte s ≡ true
digits-host [] h = refl
digits-host (c ∷ s) (d, h) = ground (arith, digits-host s h)

visible_address :
    (host port : Text)
    → all is_host_byte host ≡ true
    → all is_host_byte port ≡ true
    → all is_visible (host ++ b':' ∷ port) ≡ true
visible_address host port h p =
    ground (arith, all-append is_visible host (b':' ∷ port), host_bytes host h, host_bytes port p)

port_found :
    (host port : Text) (n : ℕ)
    → all is_host_byte host ≡ true
    → all is_host_byte port ≡ true
    → atoi port ≡ some (pos n)
    → port_of_host_port (host ++ b':' ∷ port) ≡ some (pos n)
unfolding port_of_host_port
port_found host port n h p e = rw (split_host_port-join host port h p, port_of_host_port) e

port_of-found : (s : Text) (z : ℤ) → port_of_host_port s ≡ some z → port_of s ≡ z
unfolding port_of
port_of-found [] z e = absurd (nothing z e)
  where
    nothing : (z : ℤ) → port_of_host_port [] ≡ some z → ⊥
    nothing z e = unfold port_of_host_port split_host_port last_index_byte in ground arith
port_of-found (c ∷ s) z e = rw (e, port_of)

-- The port of an address `host:n` is `n`, if `n` is an `int` and the host is printable ASCII without
-- a colon or a bracket, or is missing.
pub parse_listen_port_lem :
    (host : Text) (n : ℕ)
    → all is_host_byte host ≡ true
    → n < 2 ^ 63
    → parse_listen_port (host ++ b':' ∷ format_nat n) ≡ pos n
unfolding parse_listen_port
parse_listen_port_lem host n h b =
    let digits = digits-host (format_nat n) (format_nat-IsDigit n) in
    rw
      (trim_space-visible (host ++ b':' ∷ format_nat n)
        (visible_address host (format_nat n) h digits))
      (port_of-found (host ++ b':' ∷ format_nat n) (pos n)
        (port_found host (format_nat n) n h digits (atoi-format_nat n b)))

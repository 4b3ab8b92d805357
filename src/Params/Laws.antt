-- ===== src/Params/Laws.antt =====
-- When internal/ocserv/manager.go restarts an instance that is patched, and which tun devices two
-- instances share.
use openconnectd.Base.{◌≡◌, false, Text, arith, same_iff, take, length, length-take, ◌≤◌, ◌↔◌}
use openconnectd.Base.Int.{same_int_iff}
use openconnectd.Api.{Instance}
use openconnectd.Params.{listeners_differ, tun_name}

-- listenersDiffer says no exactly if the two agree in each of the five fields that ocserv binds by.
listeners_differ_iff :
    (a b : Instance)
    → (listeners_differ a b ≡ false) ↔ (
        (a.listen ≡ b.listen)
        × (a.tcp_port ≡ b.tcp_port)
        × (a.dtls ≡ b.dtls)
        × (a.local_bind ≡ b.local_bind)
        × (a.proxy_proto ≡ b.proxy_proto))
unfolding listeners_differ
listeners_differ_iff a b = ground (
  arith,
  same_iff a.listen b.listen,
  same_int_iff a.tcp_port b.tcp_port,
  same_iff a.local_bind b.local_bind,
)

-- A device name fits into IFNAMSIZ, and two instances get the same device exactly if their names
-- have the same first twelve bytes.
pub tun_name_lem :
    (a b : Text)
    → (length (tun_name a) ≤ 15) × ((tun_name a ≡ tun_name b) ↔ (take 12 a ≡ take 12 b))
unfolding tun_name
tun_name_lem a b = ground (arith, length-take 12 a)

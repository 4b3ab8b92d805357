-- ===== src/Render/Network.antt =====
-- splitCIDR of internal/ocserv/config.go: the network and the dotted netmask of the pool.
use openconnectd.Base.{none, some, Text, length, ◌==◌, if◌then◌else◌}
use openconnectd.Net.Ipv4.{format_ipv4}
use openconnectd.Net.Cidr.{parse_cidr}
use openconnectd.Errors.{Result, ok, err, bad_pool_cidr, pool_not_ipv4}

unfoldable pub split_cidr : Text → Result (Text × Text)
split_cidr cidr = elim (parse_cidr cidr) [
  | none ↦ err (bad_pool_cidr cidr)
  | some net ↦
      if length net.mask == 4
      then ok (format_ipv4 net.ip, format_ipv4 net.mask)
      else err (pool_not_ipv4 cidr)
]

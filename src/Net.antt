-- ===== src/Net.antt =====
-- Go's `net` and `net/netip`, as far as the program uses them: addresses, CIDR blocks, host:port.
pub mod Ipv4
pub mod Ipv6
pub mod Cidr
pub mod HostPort

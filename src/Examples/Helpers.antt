-- ===== src/Examples/Helpers.antt =====
-- The pure helpers of internal/ocserv/manager.go at concrete inputs.
use openconnectd.Base.{◌≡◌, codes, take, length, ◌≤◌, ◌↔◌}
use openconnectd.Params.{tun_name}
use openconnectd.Params.Laws.{tun_name_lem}

-- Two names that are told apart only behind their twelfth byte.
tun_name_lem_example :
    (length (tun_name (codes "customer-east-1")) ≤ 15)
    × ((tun_name (codes "customer-east-1") ≡ tun_name (codes "customer-east-2"))
        ↔ (take 12 (codes "customer-east-1") ≡ take 12 (codes "customer-east-2")))
tun_name_lem_example = tun_name_lem (codes "customer-east-1") (codes "customer-east-2")

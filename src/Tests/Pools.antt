-- ===== src/Tests/Pools.antt =====
-- A small pool, a client over its quota, and two versions.
use openvpnd.Base.{◌+◌, ◌^◌, ◌<◌, ◌≡◌, ◌↔◌, refl, true, false, some, [], ◌∷◌, List, arith}
use openvpnd.Base.Int.{pos, pos_part, wrap64, ◌-ℤ◌}
use openvpnd.Base.Text.{Bytes, codes, trim_space}
use openvpnd.Net.{parse_ipv4}
use openvpnd.Netutil.{
  parse_cidr, network, last_ipv4, used_set, allocate_next_host, validate_server_network,
}
use openvpnd.Netutil.Hosts.{IsFirstFree, allocate_next_host-IsFirstFree}
use openvpnd.Versions.{compare_versions, is_newer, opposite, compare_versions-opposite}
use openvpnd.Models.{Client, new_client}
use openvpnd.Policy.{
  Reason, effective_rx, effective_tx, has_expired, should_auto_suspend, IsPast, IsOverQuota,
  should_auto_suspend_reasons,
}

abbrev pool : Bytes
pool = codes "10.8.0.0/24"

abbrev in_use : List Bytes
in_use = codes "10.8.0.2" ∷ codes "10.8.0.3/32" ∷ []

pool_parsed :
    (validate_server_network pool ≡ true) × (parse_cidr (trim_space pool) ≡ some (168296448, 24))
unfolding validate_server_network parse_cidr parse_ipv4 trim_space
pool_parsed = (refl, refl)

allocate_next_host-IsFirstFree_example :
    IsFirstFree
      (network 168296448 24 + 2)
      (last_ipv4 168296448 24)
      (used_set 168296448 24 in_use)
      (allocate_next_host pool in_use)
allocate_next_host-IsFirstFree_example =
    allocate_next_host-IsFirstFree pool in_use 168296448 24 pool_parsed.0 pool_parsed.1

abbrev heavy : Client
heavy = record new_client {
  traffic_limit_bytes = pos 1000;
  last_rx_bytes = pos 900;
  last_tx_bytes = pos 400;
  rx_bytes_offset = pos 100;
}

heavy_sum : pos_part (effective_rx heavy) + pos_part (effective_tx heavy) < 2 ^ 63
unfolding effective_rx effective_tx wrap64 ◌-ℤ◌
heavy_sum = omega arith

should_auto_suspend_reasons_example :
    ((should_auto_suspend heavy (pos 7) ≡ some Reason.expired)
      ↔ ((heavy.suspended ≡ false) × IsPast heavy.expires_at (pos 7)))
    × ((should_auto_suspend heavy (pos 7) ≡ some Reason.traffic_limit) ↔ (
        (heavy.suspended ≡ false)
        × (has_expired heavy.expires_at (pos 7) ≡ false)
        × IsOverQuota heavy))
should_auto_suspend_reasons_example = should_auto_suspend_reasons heavy (pos 7) heavy_sum

compare_versions-opposite_example :
    (compare_versions (codes "1.9") (codes "v1.10.0-rc1")
      ≡ opposite (compare_versions (codes "v1.10.0-rc1") (codes "1.9")))
    × (is_newer (codes "v1.10.0-rc1") (codes "1.9") ≡ true
        → is_newer (codes "1.9") (codes "v1.10.0-rc1") ≡ false)
compare_versions-opposite_example = compare_versions-opposite (codes "v1.10.0-rc1") (codes "1.9")

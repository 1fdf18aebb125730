-- ===== src/Tests/Texts.antt =====
-- Texts, numbers, addresses and versions, read and printed.
use openvpnd.Base.{◌≡◌, refl, true, false, none, some, [], ◌∷◌, ◌++◌}
use openvpnd.Base.Int.{pos, negsuc}
use openvpnd.Base.Text.{codes, bytes_eq, trim_space, to_lower}
use openvpnd.Base.Split.{split}
use openvpnd.Base.Decimal.{format_uint, format_int, parse_uint}
use openvpnd.Net.{parse_ipv4, is_ip}
use openvpnd.Netutil.{allocate_next_host, ip_in_cidr, validate_server_network}
use openvpnd.Versions.{compare_versions, is_newer}

trim_space_tests :
    trim_space (0xC2 ∷ 0xA0 ∷ codes " ab c\n" ++ (0xE2 ∷ 0x80 ∷ 0xA9 ∷ [])) ≡ codes "ab c"
unfolding trim_space
trim_space_tests = refl

split_tests : split b'.' (codes ".1..22") ≡ [] ∷ codes "1" ∷ [] ∷ codes "22" ∷ []
unfolding split
split_tests = refl

decimal_tests :
    (format_int (negsuc 1203) ≡ codes "-1204")
    × (format_uint 0 ≡ codes "0")
    × (parse_uint 255 (codes "256") ≡ none)
    × (parse_uint 255 (codes "007") ≡ some 7)
unfolding format_int parse_uint
decimal_tests = (refl, refl, refl, refl)

net_tests :
    (parse_ipv4 (codes "10.8.0.12") ≡ some (10 ∷ 8 ∷ 0 ∷ 12 ∷ []))
    × (parse_ipv4 (codes "10.08.0.1") ≡ none)
    × (parse_ipv4 (codes "10.8.0.256") ≡ none)
    × (is_ip (codes "fd00::10.8.0.1") ≡ true)
    × (is_ip (codes "::") ≡ true)
    × (is_ip (codes "1:2:3:4:5:6:7::") ≡ true)
    × (is_ip (codes "1:2:3:4:5:6:7:8::") ≡ false)
    × (is_ip (codes "fe80::1%tun0") ≡ false)
    × (is_ip (codes "not-an-ip") ≡ false)
unfolding is_ip parse_ipv4
net_tests = (refl, refl, refl, refl, refl, refl, refl, refl, refl)

netutil_tests :
    (allocate_next_host (codes "10.8.0.0/24") (codes "10.8.0.2" ∷ codes "10.8.0.3/32" ∷ [])
      ≡ some 168296452)
    × (allocate_next_host (codes "10.8.0.0/30") (codes "10.8.0.2" ∷ []) ≡ none)
    × (ip_in_cidr (codes "10.8.3.1") (codes "10.8.0.0/22") ≡ true)
    × (validate_server_network (codes "10.8.0.0/31") ≡ false)
unfolding allocate_next_host ip_in_cidr validate_server_network parse_ipv4 trim_space
netutil_tests = (refl, refl, refl, refl)

versions_tests :
    (compare_versions (codes "v1.10.0") (codes "1.9") ≡ pos 1)
    × (compare_versions (codes "1.0.0-rc1") (codes "1.0.0") ≡ negsuc 0)
    × (compare_versions (codes "dev") (codes "0.1") ≡ negsuc 0)
    × (is_newer (codes "1.0.0-rc10") (codes "1.0.0-rc9") ≡ false)
    × (compare_versions (codes "1.2.3+dirty") (codes "1.2.3") ≡ pos 0)
unfolding is_newer compare_versions split parse_uint trim_space to_lower bytes_eq
versions_tests = (refl, refl, refl, refl, refl)

-- The order is not transitive: these three run in a circle.
versions_circle :
    (is_newer (codes "10.0.0") (codes "9.0.0") ≡ true)
    × (is_newer (codes "9.0.0") (codes "5x") ≡ true)
    × (is_newer (codes "5x") (codes "10.0.0") ≡ true)
unfolding is_newer compare_versions split parse_uint trim_space to_lower bytes_eq
versions_circle = (refl, refl, refl)

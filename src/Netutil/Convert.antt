-- ===== src/Netutil/Convert.antt =====
-- Networks in OpenVPN's notation: an address and a mask in place of a prefix (internal/netutil/ip.go), and
-- the print of an address.
use openvpnd.Base.{ℕ, ◌-◌, ◌/◌, ◌%◌, ◌^◌, Bool, ◌||◌, Option, some, List, [], ◌∷◌, ◌++◌, ◌>>=◌}
use openvpnd.Base.Text.{Bytes, codes, bytes_eq, trim_space, to_lower}
use openvpnd.Base.Decimal.{format_uint}
use openvpnd.Net.{is_ip}
use openvpnd.Netutil.{parse_cidr, network}

-- The bytes of an address, the highest first.
abbrev pub bytes_of : ℕ → List ℕ
bytes_of a = a / 2 ^ 24 ∷ a / 2 ^ 16 % 256 ∷ a / 2 ^ 8 % 256 ∷ a % 256 ∷ []

unfoldable pub dotted_bytes : List ℕ → Bytes
dotted_bytes [] = []
dotted_bytes (b ∷ []) = format_uint b
dotted_bytes (b ∷ c ∷ bs) = format_uint b ++ (b'.' ∷ dotted_bytes (c ∷ bs))

-- `IP.String` on four bytes.
unfoldable pub format_ipv4 : ℕ → Bytes
unfolding dotted_bytes
format_ipv4 a = dotted_bytes (bytes_of a)

-- The mask of a prefix length: its highest bits are 1.
abbrev pub mask : ℕ → ℕ
mask n = 2 ^ 32 - 2 ^ (32 - n)

-- `ServerNetworkToOpenVPN`.
unfoldable pub server_network_to_openvpn : Bytes → Option (Bytes × Bytes)
unfolding format_ipv4 parse_cidr
server_network_to_openvpn cidr = parse_cidr (trim_space cidr) >>= λ r.
    some (format_ipv4 (network r.0 r.1), format_ipv4 (mask r.1))

-- `ValidateIP`.
unfoldable pub validate_ip : Bytes → Bool
validate_ip s = is_ip (trim_space s)

-- `IsAutoToken`.
unfoldable pub is_auto_token : Bytes → Bool
is_auto_token s =
    let t = to_lower (trim_space s) in
    bytes_eq t []
    || bytes_eq t (codes "auto")
    || bytes_eq t (codes "next")
    || bytes_eq t (codes "*")

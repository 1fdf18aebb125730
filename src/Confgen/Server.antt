-- ===== src/Confgen/Server.antt =====
-- The part of a server (internal/confgen/render.go).
use openvpnd.Base.{not, ◌&&◌, Option, none, some, List, [], ◌∷◌, ◌++◌, if◌then◌else◌, ◌>>=◌}
use openvpnd.Base.Int.{ℤ, pos}
use openvpnd.Base.Text.{Bytes, codes, trim_space}
use openvpnd.Models.{Instance}
use openvpnd.Netutil.Convert.{server_network_to_openvpn}
use openvpnd.Confgen.{
  Paths, ccd_dir, is_set, is_zero, when, or_default, text_line, set_line, number_line,
  positive_line, push_routes, push_dns, push_domain, push_gateway,
}

abbrev pub port_or_default : ℤ → ℤ
port_or_default n = if is_zero n then pos 1194 else n

-- The four values of a bridge, which must be set.
abbrev bridge_line : Instance → Option (List Bytes)
bridge_line inst =
    let gw = trim_space inst.bridge_gateway in
    let mask = trim_space inst.bridge_netmask in
    let first = trim_space inst.bridge_pool_start in
    let last = trim_space inst.bridge_pool_end in
    if is_set gw && is_set mask && is_set first && is_set last
    then some (
        text_line (codes "server-bridge")
          (gw ++ codes " " ++ mask ++ codes " " ++ first ++ codes " " ++ last))
    else none

abbrev network_line : Bytes → Option (List Bytes)
network_line cidr =
    if is_set cidr
    then (server_network_to_openvpn cidr >>= λ r.
        some (text_line (codes "server") (r.0 ++ codes " " ++ r.1)))
    else some []

abbrev listen_line : Instance → Option (List Bytes)
listen_line inst = if inst.bridge_mode then bridge_line inst else network_line inst.server_network

abbrev server_front : Instance → List Bytes
server_front inst =
    number_line (codes "port") (port_or_default inst.port)
    ++ (codes "mode server" ∷ codes "tls-server" ∷ [])

abbrev server_back : Instance → Paths → List Bytes
server_back inst paths =
    set_line (codes "server-ipv6") inst.server_ipv6
    ++ text_line (codes "topology") (or_default inst.topology (codes "subnet"))
    ++ when (not inst.bridge_mode && is_set inst.pool_start && is_set inst.pool_end)
        (text_line (codes "ifconfig-pool") (inst.pool_start ++ codes " " ++ inst.pool_end))
    ++ positive_line (codes "max-clients") inst.max_clients
    ++ text_line (codes "client-config-dir") (ccd_dir paths)
    ++ (codes "ccd-exclusive" ∷ [])
    ++ push_routes inst.push_routes
    ++ push_dns inst.push_dns
    ++ push_domain inst.push_domain
    ++ push_gateway inst.redirect_gateway
    ++ (codes "duplicate-cn" ∷ [])

-- `renderServer`.
unfoldable pub render_server : Instance → Paths → Option (List Bytes)
render_server inst paths =
    listen_line inst >>= λ l. some (server_front inst ++ l ++ server_back inst paths)

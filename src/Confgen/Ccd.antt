-- ===== src/Confgen/Ccd.antt =====
-- The file of one client in the client-config-dir (internal/confgen/render.go).
use openvpnd.Base.{◌&&◌, none, some, List, [], ◌∷◌, ◌++◌, ◌==◌, if◌then◌else◌}
use openvpnd.Base.Text.{Bytes, codes, trim_space}
use openvpnd.Base.Strings.{replace_byte}
use openvpnd.Models.{Client}
use openvpnd.Netutil.Convert.{server_network_to_openvpn}
use openvpnd.Confgen.{
  lines, is_set, when, text_line, route_args, each_line, push_routes, push_dns, push_domain,
  push_gateway,
}

abbrev push_mask : Bytes → Bytes
push_mask cidr = elim (server_network_to_openvpn cidr) [
  | none ↦ codes "255.255.255.0"
  | some (n, m) ↦ m
]

abbrev address_line : Bytes → Bytes → List Bytes
address_line ip cidr =
    when (is_set ip && is_set cidr)
      (text_line (codes "ifconfig-push") (ip ++ codes " " ++ push_mask cidr))

abbrev active_lines : Client → Bytes → List Bytes
active_lines c cidr =
    address_line c.static_ip cidr
    ++ push_routes c.push_routes
    ++ push_dns c.push_dns
    ++ push_domain (trim_space c.push_domain)
    ++ push_gateway c.redirect_gateway
    ++ each_line (λ o. codes "push-remove " ++ o) c.disable_push
    ++ each_line (λ r. codes "iroute " ++ route_args r) c.iroutes

unfoldable pub ccd_lines : Client → Bytes → List Bytes
ccd_lines c cidr =
    (codes "# CN=" ++ c.common_name)
    ∷ (if c.suspended then codes "disable" ∷ [] else active_lines c cidr)

-- `RenderCCD`.
unfoldable pub render_ccd : Client → Bytes → Bytes
unfolding ccd_lines
render_ccd c cidr = lines (ccd_lines c cidr)

-- `strings.ReplaceAll` of two dots by an underscore.
unfoldable pub replace_dots : Bytes → Bytes
replace_dots [] = []
replace_dots (c ∷ []) = c ∷ []
replace_dots (c ∷ d ∷ s) =
    let shorter = replace_dots s in
    let longer = replace_dots (d ∷ s) in
    if (c == b'.') && (d == b'.') then b'_' ∷ shorter else c ∷ longer

-- `SafeCNFilename`.
unfoldable pub safe_cn_filename : Bytes → Bytes
unfolding replace_dots
safe_cn_filename cn =
    replace_dots (replace_byte b'\\' (b'_' ∷ []) (replace_byte b'/' (b'_' ∷ []) cn))

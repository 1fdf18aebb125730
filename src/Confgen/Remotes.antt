-- ===== src/Confgen/Remotes.antt =====
-- The part of a client (internal/confgen/render.go).
use openvpnd.Base.{Option, none, some, List, [], ◌∷◌, ◌++◌, if◌then◌else◌}
use openvpnd.Base.Text.{Bytes, codes}
use openvpnd.Base.Decimal.{format_int}
use openvpnd.Models.{Remote}
use openvpnd.Confgen.{is_set, when}
use openvpnd.Confgen.Server.{port_or_default}

abbrev pub remote_line : Remote → Bytes
remote_line r =
    codes "remote "
    ++ r.host
    ++ codes " "
    ++ format_int (port_or_default r.port)
    ++ (if is_set r.proto then codes " " ++ r.proto else [])

unfoldable pub remote_lines : List Remote → List Bytes
remote_lines [] = []
remote_lines (r ∷ rs) = when (is_set r.host) (remote_line r ∷ []) ++ remote_lines rs

abbrev pub client_front : List Bytes
client_front =
    codes "client"
    ∷ codes "tls-client"
    ∷ codes "nobind"
    ∷ codes "remote-cert-tls server"
    ∷ codes "resolv-retry infinite"
    ∷ []

-- `renderClient`, on the remotes of the instance.
unfoldable pub render_client : List Remote → Option (List Bytes)
unfolding remote_lines
render_client [] = none
render_client (r ∷ rs) = some (client_front ++ remote_lines (r ∷ rs))

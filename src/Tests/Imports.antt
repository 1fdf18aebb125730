-- ===== src/Tests/Imports.antt =====
-- Configurations, blocks, names and environments.
use openvpnd.Base.{
  ℕ, ◌≡◌, ◌≢◌, ◌↔◌, refl, true, false, none, some, List, [], ◌∷◌, ◌++◌, ◌>>=◌, arith,
}
use openvpnd.Base.Text.{Bytes, codes, trim_space}
use openvpnd.Base.Decimal.{format_uint}
use openvpnd.Base.Split.{split}
use openvpnd.Models.{Plugin, EnvVar}
use openvpnd.Net.{parse_ipv4}
use openvpnd.Netutil.{parse_cidr, network}
use openvpnd.Netutil.Convert.{format_ipv4, server_network_to_openvpn}
use openvpnd.Features.{dedupe_env}
use openvpnd.Features.Dedupe.{IsDistinct, names_of, value_of, last_value, dedupe_env-last_value}
use openvpnd.Confgen.Render.{plugin_line}
use openvpnd.Confgen.Ccd.{safe_cn_filename}
use openvpnd.Confgen.FileNames.{IsSafe, safe_cn_filename-IsSafe}
use openvpnd.Confimport.{Result, new_result}
use openvpnd.Confimport.Fields.{split_fields}
use openvpnd.Confimport.Mask.{Fallible, network_mask_to_cidr}
use openvpnd.Confimport.Inline.{extract_inline_blocks}
use openvpnd.Confimport.Parse.{parse}
use openvpnd.Confimport.Roles.{some_gives_role, parse-none_iff}
use openvpnd.Confimport.Materialize.{Files}
use openvpnd.Confimport.Networks.{network_mask_to_cidr-server_network_to_openvpn}
use openvpnd.Confimport.Quoting.{split_fields-plugin_line}
use openvpnd.Confimport.Blocks.{HasEnded, extract_tag-HasEnded}

abbrev conf : Bytes
conf = codes "client\nremote vpn.example.com 1194 udp\n<ca>\nPEM\n</ca>\n"

parse-none_iff_example :
    (parse conf ≡ none) ↔ (some_gives_role (split b'\n' ((extract_inline_blocks conf).1)) ≡ false)
parse-none_iff_example = parse-none_iff conf

extract_tag-HasEnded_example : HasEnded 60 (codes "ca") ([], conf)
extract_tag-HasEnded_example =
    extract_tag-HasEnded 60 (codes "ca") [] conf (omega arith) (omega arith)

pool_parsed : parse_cidr (trim_space (codes " 10.8.0.7/24")) ≡ some (168296455, 24)
unfolding parse_cidr parse_ipv4 trim_space
pool_parsed = refl

network_mask_to_cidr-server_network_to_openvpn_example :
    (server_network_to_openvpn (codes " 10.8.0.7/24") >>= λ r. some (network_mask_to_cidr r.0 r.1))
    ≡ some (Fallible.ok (format_ipv4 (network 168296455 24) ++ codes "/" ++ format_uint 24))
network_mask_to_cidr-server_network_to_openvpn_example =
    network_mask_to_cidr-server_network_to_openvpn (codes " 10.8.0.7/24") 168296455 24 pool_parsed

abbrev stuffing : Plugin
stuffing = record { path = codes "/lib/s.so"; args = codes "say \"hi\"" ∷ codes "mode=1" ∷ [] }

nonempty : (c : ℕ) (s : Bytes) → (c ∷ s) ≢ []
nonempty c s h = cc

split_fields-plugin_line_example :
    split_fields (plugin_line stuffing) ≡ codes "plugin" ∷ stuffing.path ∷ stuffing.args
split_fields-plugin_line_example =
    split_fields-plugin_line stuffing (nonempty b'/' (codes "lib/s.so")) (omega arith) (
      (nonempty b's' (codes "ay \"hi\""), omega arith),
      ((nonempty b'm' (codes "ode=1"), omega arith), tt),
    )

abbrev pending : Result
pending = record new_result {
  inline = (codes "ca", codes "PEM\n") ∷ (codes "dh", codes "DH\n") ∷ [];
}

abbrev disk : Files
disk = record { mkdir_all = λ dir. true; write_file = λ path body. true }

safe_cn_filename-IsSafe_example :
    IsSafe (safe_cn_filename (codes "../a\\b"))
    × (IsSafe (codes "../a\\b") → safe_cn_filename (codes "../a\\b") ≡ codes "../a\\b")
safe_cn_filename-IsSafe_example = safe_cn_filename-IsSafe (codes "../a\\b")

abbrev environment : List EnvVar
environment =
    record { name = codes "A"; value = codes "1" }
    ∷ record { name = codes "A"; value = codes "2" }
    ∷ []

dedupe_env-last_value_example :
    IsDistinct (names_of (dedupe_env environment))
    × ((n : Bytes) → n ≢ [] → value_of n (dedupe_env environment) ≡ last_value n environment)
dedupe_env-last_value_example = dedupe_env-last_value environment

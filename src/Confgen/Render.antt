-- ===== src/Confgen/Render.antt =====
-- The configuration of an instance (internal/confgen/render.go), without its hash.
use openvpnd.Base.{◌&&◌, Option, none, some, List, [], ◌∷◌, ◌++◌, if◌then◌else◌, ◌>>=◌}
use openvpnd.Base.Text.{Bytes, codes, to_lower}
use openvpnd.Base.Strings.{starts_with}
use openvpnd.Models.{Plugin, Instance, Client}
use openvpnd.Features.{expand}
use openvpnd.Confgen.{
  RenderOptions, Paths, tmp_dir, pid_file, status_file, mgmt_sock, lines, is_set, when, or_default,
  text_line, quote_arg,
}
use openvpnd.Confgen.Server.{render_server}
use openvpnd.Confgen.Remotes.{render_client}
use openvpnd.Confgen.Crypto.{is_server, is_client, key_lines, cipher_lines, auth_lines}
use openvpnd.Confgen.Shaper.{shaper_lines}

unfoldable pub quoted_args : List Bytes → Bytes
unfolding quote_arg
quoted_args [] = []
quoted_args (a ∷ more) = codes " " ++ quote_arg a ++ quoted_args more

unfoldable pub plugin_line : Plugin → Bytes
unfolding quoted_args
plugin_line p = codes "plugin " ++ p.path ++ quoted_args p.args

unfoldable pub plugin_lines : List Plugin → List Bytes
unfolding plugin_line
plugin_lines [] = []
plugin_lines (p ∷ ps) = when (is_set p.path) (plugin_line p ∷ []) ++ plugin_lines ps

abbrev title_lines : Instance → List Bytes
title_lines inst =
    (codes "# Generated by openvpnd " ++ (0xE2 ∷ 0x80 ∷ 0x94 ∷ []) ++ codes " do not edit by hand")
    ∷ (codes "# instance=" ++ inst.name ++ codes " role=" ++ inst.role)
    ∷ []

abbrev device_lines : Instance → List Bytes
device_lines inst =
    let dev = or_default inst.dev_type (codes "tun") in
    if is_set inst.device
    then text_line (codes "dev") inst.device ++ text_line (codes "dev-type") dev
    else text_line (codes "dev") dev

abbrev pub proto_of : Instance → Bytes
proto_of inst = or_default inst.proto (codes "udp")

abbrev bind_lines : Instance → List Bytes
bind_lines inst =
    if is_set inst.local_bind
    then text_line (codes "local") inst.local_bind
    else when (is_server inst && starts_with (codes "udp") (to_lower (proto_of inst)))
        (codes "multihome" ∷ [])

abbrev role_lines : Instance → Paths → Option (List Bytes)
role_lines inst paths =
    if is_server inst
    then render_server inst paths
    else if is_client inst
    then render_client inst.remotes
    else none

abbrev control_lines : Paths → List Bytes
control_lines paths =
    codes "keepalive 10 60"
      ∷ codes "persist-key"
      ∷ codes "persist-tun"
      ∷ text_line (codes "tmp-dir") (tmp_dir paths)
    ++ text_line (codes "writepid") (pid_file paths)
    ++ text_line (codes "status") (status_file paths ++ codes " 1")
    ++ text_line (codes "management") (mgmt_sock paths ++ codes " unix")
    ++ (codes "management-client-user root" ∷ codes "verb 2" ∷ [])

abbrev extra_lines : Bytes → List Bytes
extra_lines extra =
    when (is_set extra) ([] ∷ codes "# extensions (feature_sets + extra_directives)" ∷ extra ∷ [])

abbrev front_lines : Instance → List Plugin → List Bytes
front_lines inst plugins =
    title_lines inst
    ++ plugin_lines plugins
    ++ device_lines inst
    ++ text_line (codes "proto") (proto_of inst)
    ++ bind_lines inst

-- What stands behind the part of the role.
abbrev back_lines : Instance → Paths → List Client → RenderOptions → Bytes → List Bytes
back_lines inst paths clients opts extra =
    key_lines inst opts.instance_ca_pem
    ++ cipher_lines inst
    ++ auth_lines inst
    ++ control_lines paths
    ++ extra_lines extra
    ++ shaper_lines opts.bandwidth_enforcement inst clients

abbrev assemble :
    Instance → Paths → List Client → RenderOptions → Bytes × List Plugin → Option (List Bytes)
assemble inst paths clients opts (extra, plugins) = role_lines inst paths >>= λ middle.
    some (front_lines inst plugins ++ middle ++ back_lines inst paths clients opts extra)

-- `RenderInstanceOpts`, as lines.
unfoldable pub instance_lines : Instance → Paths → List Client → RenderOptions → Option (List Bytes)
instance_lines inst paths clients opts =
    let e =
      expand inst.feature_sets opts.custom_presets inst.extra_directives inst.plugins
        inst.env_vars in
    assemble inst paths clients opts (e.0, e.1)

unfoldable pub render_instance_opts : Instance → Paths → List Client → RenderOptions → Option Bytes
unfolding instance_lines
render_instance_opts inst paths clients opts =
    instance_lines inst paths clients opts >>= λ ls. some (lines ls)

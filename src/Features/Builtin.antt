-- ===== src/Features/Builtin.antt =====
-- The presets that ship with the program (internal/features/presets.go).
use openvpnd.Base.{List, [], ◌∷◌, ◌++◌}
use openvpnd.Base.Text.{Bytes, codes}
use openvpnd.Models.{EnvVar, FeaturePreset}

abbrev directives : Bytes → Bytes → FeaturePreset
directives id text = record { id = id; extra_directives = text; plugins = []; env_vars = [] }

-- `Builtin`, without the descriptions and notes. The dashes in the comments are three bytes each.
abbrev dash : Bytes
dash = 0xE2 ∷ 0x80 ∷ 0x94 ∷ []

abbrev stuffing : Bytes
stuffing =
    codes "# UDP stuffing "
    ++ dash
    ++ codes " REQUIRES binary_name pinned to a custom/forked openvpn\n"
    ++ codes "# (register via POST /v1/binaries, then set instance.binary_name). Stock\n"
    ++ codes "# openvpn will reject un-commented fork options.\n"
    ++ codes "#\n"
    ++ codes "# Common fork-style options (names vary by patch "
    ++ dash
    ++ codes " adjust to match yours):\n"
    ++ codes "# stuffing-enable\n"
    ++ codes "# stuffing-size 128\n"
    ++ codes "# stuffing-interval 0\n"
    ++ codes "# obfuscate-enable\n"
    ++ codes "#\n"
    ++ codes "# Optional plugin path (prefer instance.plugins[] or a custom preset):\n"
    ++ codes "# plugin /opt/openvpn-stuffing/lib/stuffing.so mode=1\n"

abbrev stuffing_env : Bytes
stuffing_env =
    codes "# process env: STUFFING_ENABLE=1 (applied to supervised openvpn, not conf)\n"
    ++ codes "# binary_name must be a custom OpenVPN that honors STUFFING_* env vars.\n"

abbrev auth_script : Bytes
auth_script =
    codes "script-security 2\n"
    ++ codes "# auth-user-pass-verify path is an EXAMPLE "
    ++ dash
    ++ codes " install your script and adjust:\n"
    ++ codes "auth-user-pass-verify /usr/local/libexec/openvpnd-auth.sh via-env\n"

abbrev enable : EnvVar
enable = record { name = codes "STUFFING_ENABLE"; value = codes "1" }

abbrev pub builtin : List FeaturePreset
builtin =
    directives (codes "explicit_exit_notify") (codes "explicit-exit-notify 1\n")
    ∷ directives (codes "mssfix") (codes "mssfix\n")
    ∷ directives (codes "verb_4") (codes "verb 4\n")
    ∷ directives (codes "fast_io") (codes "fast-io\n")
    ∷ directives (codes "udp_stuffing") stuffing
    ∷ record (directives (codes "udp_stuffing_env") stuffing_env) { env_vars = enable ∷ [] }
    ∷ directives (codes "auth_script_template") auth_script
    ∷ directives (codes "tls_modern") (codes "tls-version-min 1.2\ntls-groups X25519:P-256\n")
    ∷ directives (codes "comp_lzo_no") (codes "comp-lzo no\npush \"comp-lzo no\"\n")
    ∷ []

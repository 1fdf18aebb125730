-- ===== src/Confgen/Crypto.antt =====
-- Keys, certificates and ciphers (internal/confgen/render.go).
use openvpnd.Base.{Bool, not, ◌&&◌, List, [], ◌∷◌, ◌++◌, length, ◌==◌, if◌then◌else◌}
use openvpnd.Base.Int.{ℤ, pos, ltb_ℤ}
use openvpnd.Base.Text.{Bytes, codes, bytes_eq, trim_space}
use openvpnd.Base.Decimal.{format_int}
use openvpnd.Base.Strings.{join}
use openvpnd.Models.{Instance}
use openvpnd.Confgen.{is_set, is_zero, when, text_line, set_line, positive_line}

abbrev pub is_server : Instance → Bool
is_server inst = bytes_eq inst.role (codes "server")

abbrev pub is_client : Instance → Bool
is_client inst = bytes_eq inst.role (codes "client")

-- `writeInlinePEM`.
abbrev pub inline_pem : Bytes → Bytes → List Bytes
inline_pem tag pem =
    (codes "<" ++ tag ++ codes ">") ∷ trim_space pem ∷ (codes "</" ++ tag ++ codes ">") ∷ []

trimmed : List Bytes → List Bytes
trimmed [] = []
trimmed (e ∷ es) = when (is_set (trim_space e)) (trim_space e ∷ []) ++ trimmed es

-- `clientCABundle`.
unfoldable pub client_ca_bundle : Bytes → List Bytes → Bytes
unfolding trimmed
client_ca_bundle ca extra = join (codes "\n") (trimmed (ca ∷ extra))

abbrev ca_lines : Instance → Bytes → List Bytes
ca_lines inst ca_pem = when (is_set inst.pki_ca_path) (
    if not (length inst.extra_client_ca_pems == 0) && is_set (trim_space ca_pem)
    then inline_pem (codes "ca") (client_ca_bundle ca_pem inst.extra_client_ca_pems)
    else text_line (codes "ca") inst.pki_ca_path)

abbrev dh_lines : Instance → List Bytes
dh_lines inst = when (is_server inst) (
    if is_set inst.pki_dh_path
    then text_line (codes "dh") inst.pki_dh_path
    else codes "dh none" ∷ [])

abbrev pub key_lines : Instance → Bytes → List Bytes
key_lines inst ca_pem =
    if bytes_eq inst.auth_mode (codes "static_key")
    then set_line (codes "secret") inst.static_key_path
    else ca_lines inst ca_pem
      ++ set_line (codes "cert") inst.pki_cert_path
      ++ set_line (codes "key") inst.pki_key_path
      ++ dh_lines inst
      ++ set_line (codes "tls-crypt") inst.pki_tls_crypt_path
      ++ set_line (codes "tls-auth") inst.static_key_path
      ++ when (is_server inst) (set_line (codes "crl-verify") inst.pki_crl_path)

abbrev pub cipher_lines : Instance → List Bytes
cipher_lines inst =
    set_line (codes "cipher") inst.cipher
    ++ set_line (codes "data-ciphers") inst.data_ciphers
    ++ set_line (codes "auth") inst.auth_digest
    ++ set_line (codes "tls-version-min") inst.tls_version_min
    ++ set_line (codes "tls-cipher") inst.tls_cipher
    ++ set_line (codes "tls-ciphersuites") inst.tls_ciphersuites
    ++ set_line (codes "tls-groups") inst.tls_groups
    ++ set_line (codes "tls-cert-profile") inst.tls_cert_profile
    ++ positive_line (codes "tun-mtu") inst.tun_mtu
    ++ positive_line (codes "sndbuf") inst.sndbuf
    ++ positive_line (codes "rcvbuf") inst.rcvbuf
    ++ set_line (codes "ifconfig-ipv6") inst.ifconfig_ipv6

abbrev login_lines : Instance → List Bytes
login_lines inst = when (is_client inst) (
    if is_set (trim_space inst.auth_user_pass_file)
    then text_line (codes "auth-user-pass") (trim_space inst.auth_user_pass_file)
    else when inst.auth_user_pass (codes "auth-user-pass" ∷ []))

abbrev security : ℤ → ℤ
security n = if is_zero n then pos 2 else n

abbrev verify_lines : Instance → List Bytes
verify_lines inst =
    let script = trim_space inst.auth_user_pass_verify in
    let level = security inst.script_security in
    when (is_server inst && is_set script) (
      text_line (codes "script-security") (format_int level)
      ++ text_line (codes "auth-user-pass-verify") (
          script
          ++ codes " "
          ++ (if ltb_ℤ level (pos 2) then codes "via-file" else codes "via-env"))
      ++ when inst.username_as_common_name (codes "username-as-common-name" ∷ []))

abbrev pub auth_lines : Instance → List Bytes
auth_lines inst = login_lines inst ++ verify_lines inst

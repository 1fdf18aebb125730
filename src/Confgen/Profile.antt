-- ===== src/Confgen/Profile.antt =====
-- The configuration that a client gets to carry away (internal/confgen/profile.go). Reading the files is
-- not modelled.
use openvpnd.Base.{
  ℕ, ◌-◌, ◌^◌, Bool, ◌&&◌, ◌||◌, Option, none, some, List, [], ◌∷◌, ◌++◌, ◌==◌, if◌then◌else◌,
  ◌>>=◌,
}
use openvpnd.Base.Int.{ℤ, pos}
use openvpnd.Base.Text.{Bytes, codes, trim_space, to_lower}
use openvpnd.Base.Decimal.{format_int, parse_uint}
use openvpnd.Base.Split.{split}
use openvpnd.Base.Strings.{starts_with}
use openvpnd.Models.{Instance, Client}
use openvpnd.Net.{is_digit}
use openvpnd.Confgen.{lines, is_set, is_zero, when, or_default, text_line, set_line}
use openvpnd.Confgen.Crypto.{inline_pem}

pub record ProfileMaterial : Type 0 where
  pub ca : Bytes
  pub cert : Bytes
  pub key : Bytes
  pub tls_crypt : Bytes

pub record ProfileOptions : Type 0 where
  pub remote_host : Bytes
  pub remote_port : ℤ
  pub proto : Bytes
  pub dev_type : Bytes
  pub inline : Bool
  pub extra : Bytes

-- What stands before and behind the only colon.
abbrev cut_colon : Bytes → List Bytes → Option (Bytes × Bytes)
cut_colon s (h ∷ p ∷ []) = some (h, p)
cut_colon s parts = none

abbrev skip_spaces : Bytes → Bytes
skip_spaces [] = []
skip_spaces (c ∷ s) =
    let rest = skip_spaces s in if (c == b' ') || (c == b'\t') || (c == b'\r') then rest else c ∷ s

leading_digits : Bytes → Bytes
leading_digits [] = []
leading_digits (c ∷ s) = let rest = leading_digits s in if is_digit c then c ∷ rest else []

abbrev drop_plus : Bytes → Bytes
drop_plus [] = []
drop_plus (c ∷ s) = if c == b'+' then s else c ∷ s

-- `fmt.Sscanf` with `%d`, for a positive number: what follows the digits is not read.
unfoldable pub scan_positive : Bytes → Option ℕ
unfolding leading_digits
scan_positive s = parse_uint (2 ^ 63 - 1) (leading_digits (drop_plus (skip_spaces s))) >>= λ n.
    if n == 0 then none else some n

abbrev host_and_port : Bytes × Bytes → Option (Bytes × ℕ)
host_and_port (h, p) = if is_set h then (scan_positive p >>= λ n. some (h, n)) else none

-- `splitHostPort`.
unfoldable pub split_host_port : Bytes → Option (Bytes × ℕ)
unfolding scan_positive
split_host_port raw = let s = trim_space raw in cut_colon s (split b':' s) >>= host_and_port

abbrev default_port : ProfileOptions → Instance → ℤ
default_port opt inst =
    if is_zero opt.remote_port
    then (if is_zero inst.port then pos 1194 else inst.port)
    else opt.remote_port

-- The host and the port of the remote.
unfoldable pub endpoint : ProfileOptions → Instance → Bytes × ℤ
unfolding split_host_port
endpoint opt inst =
    let given = trim_space opt.remote_host in
    let host = if is_set given then given else trim_space inst.public_endpoint in
    elim (split_host_port host) [
      | none ↦ (host, default_port opt inst)
      | some (h, p) ↦ (h, if is_zero opt.remote_port then pos p else default_port opt inst)
    ]

abbrev first_part : List Bytes → Bytes
first_part [] = codes "AES-256-GCM"
first_part (p ∷ ps) = if is_set (trim_space p) then trim_space p else first_part ps

abbrev cipher_lines : Bytes → Bytes → Bytes → List Bytes
cipher_lines cipher data_ciphers auth =
    let offered =
      or_default (trim_space data_ciphers) (codes "AES-256-GCM:AES-128-GCM:CHACHA20-POLY1305") in
    text_line (codes "cipher") (or_default (trim_space cipher) (first_part (split b':' offered)))
    ++ text_line (codes "data-ciphers") offered
    ++ (codes "data-ciphers-fallback AES-256-CBC" ∷ [])
    ++ text_line (codes "auth") (or_default (trim_space auth) (codes "SHA256"))
    ++ (codes "float" ∷ codes "reneg-sec 0" ∷ [])

abbrev inline_lines : ProfileMaterial → List Bytes
inline_lines mat =
    inline_pem (codes "ca") mat.ca
    ++ inline_pem (codes "cert") mat.cert
    ++ inline_pem (codes "key") mat.key
    ++ when (is_set mat.tls_crypt) (inline_pem (codes "tls-crypt") mat.tls_crypt)

abbrev path_lines : Instance → Client → List Bytes
path_lines inst client =
    text_line (codes "ca") inst.pki_ca_path
    ++ text_line (codes "cert") client.client_cert_path
    ++ text_line (codes "key") client.client_key_path
    ++ set_line (codes "tls-crypt") inst.pki_tls_crypt_path

abbrev is_loaded : ProfileMaterial → Bool
is_loaded mat = is_set mat.ca && is_set mat.cert && is_set mat.key

abbrev material_lines : Instance → Client → ProfileMaterial → ProfileOptions → Option (List Bytes)
material_lines inst client mat opt =
    if is_loaded mat
    then some (inline_lines mat)
    else if opt.inline
    then none
    else some (path_lines inst client)

abbrev first_set : Bytes → Bytes → Bytes → Bytes
first_set a b c = or_default (or_default a b) c

abbrev front_lines : Instance → Client → ProfileOptions → Bytes × ℤ → List Bytes
front_lines inst client opt (host, port) =
    let proto = first_set opt.proto inst.proto (codes "udp") in
    (codes "# openvpnd profile "
        ++ (0xC2 ∷ 0xB7 ∷ [])
        ++ codes " instance="
        ++ inst.name
        ++ codes " cn="
        ++ client.common_name)
      ∷ codes "client"
      ∷ text_line (codes "dev") (first_set opt.dev_type inst.dev_type (codes "tun"))
    ++ text_line (codes "proto") proto
    ++ text_line (codes "remote") (host ++ codes " " ++ format_int port)
    ++ (codes "resolv-retry infinite"
        ∷ codes "nobind"
        ∷ codes "persist-key"
        ∷ codes "persist-tun"
        ∷ codes "remote-cert-tls server"
        ∷ codes "auth-nocache"
        ∷ codes "verb 3"
        ∷ codes "ignore-unknown-option data-ciphers"
        ∷ codes "ignore-unknown-option data-ciphers-fallback"
        ∷ [])
    ++ when (starts_with (codes "udp") (to_lower proto)) (codes "explicit-exit-notify 1" ∷ [])
    ++ cipher_lines inst.cipher inst.data_ciphers inst.auth_digest

abbrev tail_lines : Bytes → List Bytes
tail_lines extra = when (is_set extra) ([] ∷ trim_space extra ∷ [])

-- What a profile cannot do without.
abbrev is_complete : Instance → Client → ProfileMaterial → Bytes → Bool
is_complete inst client mat host =
    is_set host
    && (is_set mat.ca || is_set inst.pki_ca_path)
    && (is_set mat.cert || is_set client.client_cert_path)
    && (is_set mat.key || is_set client.client_key_path)

-- `RenderClientProfile`.
unfoldable pub render_client_profile :
    Instance → Client → ProfileMaterial → ProfileOptions → Option Bytes
unfolding endpoint
render_client_profile inst client mat opt =
    let remote = endpoint opt inst in
    if is_complete inst client mat remote.0
    then (material_lines inst client mat opt >>= λ material.
        some (lines (front_lines inst client opt remote ++ material ++ tail_lines opt.extra)))
    else none

-- ===== src/Confimport/Request.antt =====
-- The creation request that an imported configuration gives (internal/confimport/map.go). `issue` and
-- `generate` are the two flags, `none` for the null pointer.
use openvpnd.Base.{Bool, false, not, ◌&&◌, ◌||◌, Option, none, some, List, [], ◌++◌, if◌then◌else◌}
use openvpnd.Base.Int.{ℤ, pos, ltb_ℤ}
use openvpnd.Base.Decimal.{format_int}
use openvpnd.Base.Text.{Bytes, codes, bytes_eq, trim_space}
use openvpnd.Base.Strings.{trim_right}
use openvpnd.Confimport.{Remote, Plugin, Result}

pub record InstanceCreateRequest : Type 0 where
  pub role : Bytes
  pub dev_type : Bytes
  pub device : Bytes
  pub proto : Bytes
  pub local_bind : Bytes
  pub port : ℤ
  pub server_network : Bytes
  pub topology : Bytes
  pub auth_mode : Bytes
  pub cipher : Bytes
  pub data_ciphers : Bytes
  pub auth_digest : Bytes
  pub push_routes : List Bytes
  pub push_dns : List Bytes
  pub push_domain : Bytes
  pub redirect_gateway : Bool
  pub pki_ca_path : Bytes
  pub pki_cert_path : Bytes
  pub pki_key_path : Bytes
  pub pki_tls_crypt_path : Bytes
  pub pki_dh_path : Bytes
  pub static_key_path : Bytes
  pub remotes : List Remote
  pub plugins : List Plugin
  pub extra_directives : Bytes
  pub issue_server_cert : Option Bool
  pub generate_tls_crypt : Option Bool

abbrev is_positive : ℤ → Bool
is_positive n = ltb_ℤ (pos 0) n

abbrev is_nonzero : ℤ → Bool
is_nonzero n = ltb_ℤ n (pos 0) || ltb_ℤ (pos 0) n

abbrev when : Bool → Bytes → Bytes
when b text = if b then text else []

abbrev number_line : Bool → Bytes → ℤ → Bytes
number_line b name n = when b (name ++ codes " " ++ format_int n ++ codes "\n")

abbrev text_line : Bytes → Bytes → Bytes
text_line name s = when (not (bytes_eq s [])) (name ++ codes " " ++ s ++ codes "\n")

-- The fields that a request does not have, as directives.
unfoldable pub folded : Result → Bytes
folded r =
    when (not (bytes_eq (trim_space r.extra_directives) []))
      (trim_right b'\n' r.extra_directives ++ codes "\n")
    ++ number_line (is_positive r.max_clients) (codes "max-clients") r.max_clients
    ++ text_line (codes "tls-version-min") r.tls_version_min
    ++ number_line (is_positive r.tun_mtu) (codes "tun-mtu") r.tun_mtu
    ++ number_line (is_nonzero r.sndbuf) (codes "sndbuf") r.sndbuf
    ++ number_line (is_nonzero r.rcvbuf) (codes "rcvbuf") r.rcvbuf
    ++ text_line (codes "server-ipv6") r.server_ipv6

-- With a certificate and a key nothing is issued; the flag is false.
abbrev flag : Result → Option Bool
flag r =
    if not (bytes_eq r.pki_cert_path []) && not (bytes_eq r.pki_key_path [])
    then some false
    else none

-- `ToCreateRequest`.
unfoldable pub to_create_request : Result → InstanceCreateRequest
unfolding folded
to_create_request r = record {
  role = r.role;
  dev_type = r.dev_type;
  device = r.device;
  proto = r.proto;
  local_bind = r.local_bind;
  port = r.port;
  server_network = r.server_network;
  topology = r.topology;
  auth_mode = r.auth_mode;
  cipher = r.cipher;
  data_ciphers = r.data_ciphers;
  auth_digest = r.auth_digest;
  push_routes = r.push_routes;
  push_dns = r.push_dns;
  push_domain = r.push_domain;
  redirect_gateway = r.redirect_gateway;
  pki_ca_path = r.pki_ca_path;
  pki_cert_path = r.pki_cert_path;
  pki_key_path = r.pki_key_path;
  pki_tls_crypt_path = r.tls_crypt_path;
  pki_dh_path = r.pki_dh_path;
  static_key_path = r.static_key_path;
  remotes = r.remotes;
  plugins = r.plugins;
  extra_directives = folded r;
  issue_server_cert = flag r;
  generate_tls_crypt = flag r;
}

-- ===== src/Confimport.antt =====
-- The import of OpenVPN configurations (internal/confimport): what a file is read into. Fields
-- (splitting of a line), Mask, Push and Inline are parts of the reader, Parse is the reader, and Request
-- makes a creation request of its result. The texts are ASCII where letters change case.
pub mod Fields
pub mod Mask
pub mod Push
pub mod Inline
pub mod Keyword
pub mod Parse
pub mod Materialize
pub mod Written
pub mod Placed
pub mod Request
pub mod Quoting
pub mod Networks
pub mod Roles
pub mod Blocks
use openvpnd.Base.{Bool, false, List, []}
use openvpnd.Base.Int.{ℤ, pos}
use openvpnd.Base.Text.{Bytes, codes}
use openvpnd.Base.Assoc.{Assoc}

pub record Remote : Type 0 where
  pub host : Bytes
  pub port : ℤ
  pub proto : Bytes

pub record Plugin : Type 0 where
  pub path : Bytes
  pub args : List Bytes

pub record Result : Type 0 where
  pub role : Bytes
  pub proto : Bytes
  pub port : ℤ
  pub local_bind : Bytes
  pub dev_type : Bytes
  pub device : Bytes
  pub server_network : Bytes
  pub topology : Bytes
  pub remotes : List Remote
  pub auth_mode : Bytes
  pub pki_ca_path : Bytes
  pub pki_cert_path : Bytes
  pub pki_key_path : Bytes
  pub pki_dh_path : Bytes
  pub tls_crypt_path : Bytes
  pub static_key_path : Bytes
  pub cipher : Bytes
  pub data_ciphers : Bytes
  pub auth_digest : Bytes
  pub extra_directives : Bytes
  pub redirect_gateway : Bool
  pub push_dns : List Bytes
  pub push_routes : List Bytes
  pub push_domain : Bytes
  pub max_clients : ℤ
  pub tls_version_min : Bytes
  pub tun_mtu : ℤ
  pub sndbuf : ℤ
  pub rcvbuf : ℤ
  pub server_ipv6 : Bytes
  pub plugins : List Plugin
  pub warnings : List Bytes
  pub inline : Assoc Bytes

-- The zero value, with the authentication mode that `Parse` starts from.
abbrev pub new_result : Result
new_result = record {
  role = [];
  proto = [];
  port = pos 0;
  local_bind = [];
  dev_type = [];
  device = [];
  server_network = [];
  topology = [];
  remotes = [];
  auth_mode = codes "pki";
  pki_ca_path = [];
  pki_cert_path = [];
  pki_key_path = [];
  pki_dh_path = [];
  tls_crypt_path = [];
  static_key_path = [];
  cipher = [];
  data_ciphers = [];
  auth_digest = [];
  extra_directives = [];
  redirect_gateway = false;
  push_dns = [];
  push_routes = [];
  push_domain = [];
  max_clients = pos 0;
  tls_version_min = [];
  tun_mtu = pos 0;
  sndbuf = pos 0;
  rcvbuf = pos 0;
  server_ipv6 = [];
  plugins = [];
  warnings = [];
  inline = [];
}

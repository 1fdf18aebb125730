-- ===== src/Models.antt =====
-- The rows that the parts read (internal/db/models.go), without the fields that only the user interfaces
-- show. A time is a number of nanoseconds, `none` for the zero time.
use openvpnd.Base.{ℕ, Bool, false, Option, none, List, []}
use openvpnd.Base.Int.{ℤ, pos}
use openvpnd.Base.Text.{Bytes}

pub record Remote : Type 0 where
  pub host : Bytes
  pub port : ℤ
  pub proto : Bytes

pub record Plugin : Type 0 where
  pub path : Bytes
  pub args : List Bytes

pub record EnvVar : Type 0 where
  pub name : Bytes
  pub value : Bytes

pub record FeaturePreset : Type 0 where
  pub id : Bytes
  pub extra_directives : Bytes
  pub plugins : List Plugin
  pub env_vars : List EnvVar

pub record Instance : Type 0 where
  pub name : Bytes
  pub role : Bytes
  pub enabled : Bool
  pub binary_name : Bytes
  pub binary_path : Bytes
  pub dev_type : Bytes
  pub device : Bytes
  pub proto : Bytes
  pub local_bind : Bytes
  pub port : ℤ
  pub remotes : List Remote
  pub server_network : Bytes
  pub topology : Bytes
  pub pool_start : Bytes
  pub pool_end : Bytes
  pub auth_mode : Bytes
  pub cipher : Bytes
  pub data_ciphers : Bytes
  pub auth_digest : Bytes
  pub push_routes : List Bytes
  pub push_dns : List Bytes
  pub push_domain : Bytes
  pub redirect_gateway : Bool
  pub pki_ca_path : Bytes
  pub pki_cert_path : Bytes
  pub pki_key_path : Bytes
  pub pki_tls_crypt_path : Bytes
  pub pki_dh_path : Bytes
  pub pki_crl_path : Bytes
  pub static_key_path : Bytes
  pub extra_client_ca_pems : List Bytes
  pub extra_directives : Bytes
  pub plugins : List Plugin
  pub env_vars : List EnvVar
  pub feature_sets : List Bytes
  pub max_clients : ℤ
  pub tls_version_min : Bytes
  pub tun_mtu : ℤ
  pub sndbuf : ℤ
  pub rcvbuf : ℤ
  pub server_ipv6 : Bytes
  pub auth_user_pass : Bool
  pub bridge_mode : Bool
  pub bridge_gateway : Bytes
  pub bridge_pool_start : Bytes
  pub bridge_pool_end : Bytes
  pub bridge_netmask : Bytes
  pub tls_cipher : Bytes
  pub tls_ciphersuites : Bytes
  pub tls_groups : Bytes
  pub tls_cert_profile : Bytes
  pub auth_user_pass_verify : Bytes
  pub script_security : ℤ
  pub username_as_common_name : Bool
  pub auth_user_pass_file : Bytes
  pub ifconfig_ipv6 : Bytes
  pub bandwidth_rx_bps : ℤ
  pub bandwidth_tx_bps : ℤ
  pub pid : ℤ
  pub last_error : Bytes
  pub last_rx_bytes : ℤ
  pub last_tx_bytes : ℤ
  pub connected_clients : ℕ
  pub public_endpoint : Bytes

pub record Client : Type 0 where
  pub id : ℕ
  pub common_name : Bytes
  pub name : Bytes
  pub static_ip : Bytes
  pub push_routes : List Bytes
  pub iroutes : List Bytes
  pub push_dns : List Bytes
  pub push_domain : Bytes
  pub redirect_gateway : Bool
  pub disable_push : List Bytes
  pub suspended : Bool
  pub traffic_limit_bytes : ℤ
  pub bandwidth_rx_bps : ℤ
  pub bandwidth_tx_bps : ℤ
  pub bandwidth_total_bps : ℤ
  pub expires_at : Option ℤ
  pub client_cert_path : Bytes
  pub client_key_path : Bytes
  pub rx_bytes_offset : ℤ
  pub tx_bytes_offset : ℤ
  pub last_rx_bytes : ℤ
  pub last_tx_bytes : ℤ

-- The zero values.
abbrev pub new_instance : Instance
new_instance = record {
  name = [];
  role = [];
  enabled = false;
  binary_name = [];
  binary_path = [];
  dev_type = [];
  device = [];
  proto = [];
  local_bind = [];
  port = pos 0;
  remotes = [];
  server_network = [];
  topology = [];
  pool_start = [];
  pool_end = [];
  auth_mode = [];
  cipher = [];
  data_ciphers = [];
  auth_digest = [];
  push_routes = [];
  push_dns = [];
  push_domain = [];
  redirect_gateway = false;
  pki_ca_path = [];
  pki_cert_path = [];
  pki_key_path = [];
  pki_tls_crypt_path = [];
  pki_dh_path = [];
  pki_crl_path = [];
  static_key_path = [];
  extra_client_ca_pems = [];
  extra_directives = [];
  plugins = [];
  env_vars = [];
  feature_sets = [];
  max_clients = pos 0;
  tls_version_min = [];
  tun_mtu = pos 0;
  sndbuf = pos 0;
  rcvbuf = pos 0;
  server_ipv6 = [];
  auth_user_pass = false;
  bridge_mode = false;
  bridge_gateway = [];
  bridge_pool_start = [];
  bridge_pool_end = [];
  bridge_netmask = [];
  tls_cipher = [];
  tls_ciphersuites = [];
  tls_groups = [];
  tls_cert_profile = [];
  auth_user_pass_verify = [];
  script_security = pos 0;
  username_as_common_name = false;
  auth_user_pass_file = [];
  ifconfig_ipv6 = [];
  bandwidth_rx_bps = pos 0;
  bandwidth_tx_bps = pos 0;
  pid = pos 0;
  last_error = [];
  last_rx_bytes = pos 0;
  last_tx_bytes = pos 0;
  connected_clients = 0;
  public_endpoint = [];
}

abbrev pub new_client : Client
new_client = record {
  id = 0;
  common_name = [];
  name = [];
  static_ip = [];
  push_routes = [];
  iroutes = [];
  push_dns = [];
  push_domain = [];
  redirect_gateway = false;
  disable_push = [];
  suspended = false;
  traffic_limit_bytes = pos 0;
  bandwidth_rx_bps = pos 0;
  bandwidth_tx_bps = pos 0;
  bandwidth_total_bps = pos 0;
  expires_at = none;
  client_cert_path = [];
  client_key_path = [];
  rx_bytes_offset = pos 0;
  tx_bytes_offset = pos 0;
  last_rx_bytes = pos 0;
  last_tx_bytes = pos 0;
}

-- ===== src/Confimport/Keyword.antt =====
-- The directives that the reader knows (the cases of the switch in internal/confimport/parse.go), and
-- those that it leaves out because the daemon writes them itself.
use openvpnd.Base.{Bool, false, ◌||◌, List, [], ◌∷◌, ◌++◌, if◌then◌else◌}
use openvpnd.Base.Text.{Bytes, codes, bytes_eq}
use openvpnd.Base.Strings.{starts_with, first_field}
use openvpnd.Base.Sort.{member}

-- `other` is the default case: the line is kept.
pub data Keyword : Type 0 where
  client : Keyword
  server : Keyword
  mode : Keyword
  tls_server : Keyword
  tls_client : Keyword
  proto : Keyword
  port : Keyword
  local_bind : Keyword
  dev : Keyword
  dev_type : Keyword
  topology : Keyword
  remote : Keyword
  cipher : Keyword
  data_ciphers : Keyword
  auth : Keyword
  ca : Keyword
  cert : Keyword
  key : Keyword
  dh : Keyword
  tls_crypt : Keyword
  tls_auth : Keyword
  secret : Keyword
  push : Keyword
  plugin : Keyword
  max_clients : Keyword
  tls_version_min : Keyword
  tun_mtu : Keyword
  sndbuf : Keyword
  rcvbuf : Keyword
  server_ipv6 : Keyword
  ifconfig_pool : Keyword
  redirect_gateway : Keyword
  other : Keyword

abbrev cases : List (Bytes × Keyword)
cases =
    (codes "client", Keyword.client)
    ∷ (codes "server", Keyword.server)
    ∷ (codes "mode", Keyword.mode)
    ∷ (codes "tls-server", Keyword.tls_server)
    ∷ (codes "tls-client", Keyword.tls_client)
    ∷ (codes "proto", Keyword.proto)
    ∷ (codes "port", Keyword.port)
    ∷ (codes "lport", Keyword.port)
    ∷ (codes "local", Keyword.local_bind)
    ∷ (codes "dev", Keyword.dev)
    ∷ (codes "dev-type", Keyword.dev_type)
    ∷ (codes "topology", Keyword.topology)
    ∷ (codes "remote", Keyword.remote)
    ∷ (codes "cipher", Keyword.cipher)
    ∷ (codes "data-ciphers", Keyword.data_ciphers)
    ∷ (codes "auth", Keyword.auth)
    ∷ (codes "ca", Keyword.ca)
    ∷ (codes "cert", Keyword.cert)
    ∷ (codes "key", Keyword.key)
    ∷ (codes "dh", Keyword.dh)
    ∷ (codes "tls-crypt", Keyword.tls_crypt)
    ∷ (codes "tls-auth", Keyword.tls_auth)
    ∷ (codes "secret", Keyword.secret)
    ∷ (codes "push", Keyword.push)
    ∷ (codes "plugin", Keyword.plugin)
    ∷ (codes "max-clients", Keyword.max_clients)
    ∷ (codes "tls-version-min", Keyword.tls_version_min)
    ∷ (codes "tun-mtu", Keyword.tun_mtu)
    ∷ (codes "sndbuf", Keyword.sndbuf)
    ∷ (codes "rcvbuf", Keyword.rcvbuf)
    ∷ (codes "server-ipv6", Keyword.server_ipv6)
    ∷ (codes "ifconfig-pool", Keyword.ifconfig_pool)
    ∷ (codes "redirect-gateway", Keyword.redirect_gateway)
    ∷ []

choose : Bytes → List (Bytes × Keyword) → Keyword
choose word [] = Keyword.other
choose word ((text, k) ∷ rest) =
    let next = choose word rest in if bytes_eq word text then k else next

-- The case that a lower-case key selects.
unfoldable pub keyword : Bytes → Keyword
unfolding choose
keyword word = choose word cases

-- `ignorePrefixes`.
abbrev ignore_prefixes : List Bytes
ignore_prefixes =
    codes "management"
    ∷ codes "management-client-user"
    ∷ codes "management-client-group"
    ∷ codes "status"
    ∷ codes "writepid"
    ∷ codes "verb"
    ∷ codes "persist-key"
    ∷ codes "persist-tun"
    ∷ codes "persist-local-ip"
    ∷ codes "persist-remote-ip"
    ∷ codes "script-security"
    ∷ codes "daemon"
    ∷ codes "user"
    ∷ codes "group"
    ∷ codes "chroot"
    ∷ codes "setenv FORWARD_COMPATIBLE"
    ∷ codes "setenv opt"
    ∷ codes "keepalive"
    ∷ []

abbrev bare_keys : List Bytes
bare_keys =
    codes "management"
    ∷ codes "status"
    ∷ codes "writepid"
    ∷ codes "verb"
    ∷ codes "persist-key"
    ∷ codes "persist-tun"
    ∷ codes "persist-local-ip"
    ∷ codes "persist-remote-ip"
    ∷ codes "daemon"
    ∷ codes "keepalive"
    ∷ []

begins_with : Bytes → List Bytes → Bool
begins_with low [] = false
begins_with low (p ∷ ps) =
    bytes_eq low p
    || starts_with (p ++ codes " ") low
    || starts_with (p ++ codes "\t") low
    || begins_with low ps

-- `shouldIgnore`, on a line without spaces around it.
unfoldable pub should_ignore : Bytes → Bool
unfolding begins_with
should_ignore low = begins_with low ignore_prefixes || member (first_field low) bare_keys

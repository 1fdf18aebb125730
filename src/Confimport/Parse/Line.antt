-- ===== src/Confimport/Parse/Line.antt =====
-- What one line adds to the result (the loop of `Parse` in internal/confimport/parse.go).
use openvpnd.Base.{
  Bool, true, not, ◌&&◌, ◌||◌, none, some, List, [], ◌∷◌, ◌++◌, take, if◌then◌else◌,
}
use openvpnd.Base.Int.{ℤ, pos}
use openvpnd.Base.Decimal.{atoi}
use openvpnd.Base.Text.{Bytes, codes, bytes_eq, trim_space, to_lower}
use openvpnd.Base.Strings.{starts_with, equal_fold, join}
use openvpnd.Confimport.{Remote, Result}
use openvpnd.Confimport.Fields.{split_fields, index_unquoted}
use openvpnd.Confimport.Mask.{Fallible, network_mask_to_cidr}
use openvpnd.Confimport.Push.{extract_push_payload, parse_push}
use openvpnd.Confimport.Keyword.{Keyword, keyword, should_ignore}

-- The variables of the loop.
pub record Reader : Type 0 where
  pub result : Result
  pub extra : List Bytes
  pub saw_client : Bool
  pub saw_server : Bool

abbrev pub set_result : Result → Reader → Reader
set_result result r = record r { result = result }

abbrev keep_line : Bytes → Reader → Reader
keep_line line r = record r { extra = r.extra ++ (line ∷ []) }

abbrev pub server_network : Bytes → Bytes → Result → Result
server_network net mask r = elim (network_mask_to_cidr net mask) [
  | Fallible.ok cidr ↦ record r { server_network = cidr }
  | Fallible.fail e ↦ record r {
    warnings =
        r.warnings ++ ((codes "server " ++ net ++ codes " " ++ mask ++ codes ": " ++ e) ∷ []);
  }
]

abbrev role_or : Bytes → Result → Result
role_or role r = record r { role = if bytes_eq r.role [] then role else r.role }

abbrev pub device : Bytes → Result → Result
device dev r =
    let low = to_lower dev in
    if bytes_eq low (codes "tun") || bytes_eq low (codes "tap")
    then record r { dev_type = low }
    else if starts_with (codes "tun") low
    then record r { dev_type = codes "tun"; device = dev }
    else if starts_with (codes "tap") low
    then record r { dev_type = codes "tap"; device = dev }
    else record r { device = dev }

-- The number that a field holds, or the old value.
abbrev number_or : ℤ → Bytes → ℤ
number_or old field = elim (atoi field) [ none ↦ old | some n ↦ n ]

abbrev with_port : Bytes → Remote → Remote
with_port field rem = elim (atoi field) [
  | some p ↦ record rem { port = p }
  | none ↦ record rem { proto = to_lower field }
]

abbrev pub remote_of : Bytes → List Bytes → Remote
remote_of host args =
    let rem : Remote = record { host = host; port = pos 1194; proto = [] } in
    elim args [
      | [] ↦ rem
      | p ∷ more ↦ elim more [
        | [] ↦ with_port p rem
        | q ∷ rest ↦ record (with_port p rem) { proto = to_lower q }
      ]
    ]

abbrev pub add_remote : Remote → Result → Result
add_remote rem r = record r {
  proto = if not (bytes_eq rem.proto []) && bytes_eq r.proto [] then rem.proto else r.proto;
  remotes = r.remotes ++ (rem ∷ []);
}

abbrev pub push_line : Bytes → Result → Result
push_line payload r = if bytes_eq payload [] then r else parse_push payload r

-- The cases of the switch, on the fields behind the key; `line` is the whole line.
unfoldable pub directive : Keyword → List Bytes → Bytes → Reader → Reader
directive Keyword.client args line r = record r {
  saw_client = true;
  result = record (r.result) { role = codes "client" };
}
directive Keyword.server args line r =
    let marked : Result = record (r.result) { role = codes "server" } in
    record r {
      saw_server = true;
      result = elim args [
        | [] ↦ marked
        | n ∷ more ↦ elim more [ [] ↦ marked | m ∷ rest ↦ server_network n m marked ]
      ];
    }
directive Keyword.mode [] line r = r
directive Keyword.mode (a ∷ rest) line r =
    if equal_fold a (codes "server")
    then record r { saw_server = true; result = record (r.result) { role = codes "server" } }
    else r
directive Keyword.tls_server args line r = record r {
  saw_server = true;
  result = role_or (codes "server") r.result;
}
directive Keyword.tls_client args line r = record r {
  saw_client = true;
  result = role_or (codes "client") r.result;
}
directive Keyword.redirect_gateway args line r =
    let flagged = set_result (record (r.result) { redirect_gateway = true }) r in
    elim args [ [] ↦ flagged | a ∷ more ↦ keep_line line flagged ]
directive Keyword.push args line r = set_result (push_line (extract_push_payload line) r.result) r
directive Keyword.ifconfig_pool (a ∷ b ∷ rest) line r = keep_line line r
directive Keyword.ifconfig_pool args line r = r
directive Keyword.other args line r = keep_line line r
directive k [] line r = r
directive Keyword.proto (a ∷ rest) line r = set_result (record (r.result) { proto = to_lower a }) r
directive Keyword.port (a ∷ rest) line r =
    set_result (record (r.result) { port = number_or r.result.port a }) r
directive Keyword.local_bind (a ∷ rest) line r = set_result (record (r.result) { local_bind = a }) r
directive Keyword.dev (a ∷ rest) line r = set_result (device a r.result) r
directive Keyword.dev_type (a ∷ rest) line r =
    set_result (record (r.result) { dev_type = to_lower a }) r
directive Keyword.topology (a ∷ rest) line r =
    set_result (record (r.result) { topology = to_lower a }) r
directive Keyword.remote (a ∷ rest) line r = set_result (add_remote (remote_of a rest) r.result) r
directive Keyword.cipher (a ∷ rest) line r = set_result (record (r.result) { cipher = a }) r
directive Keyword.data_ciphers (a ∷ rest) line r =
    set_result (record (r.result) { data_ciphers = join (codes " ") (a ∷ rest) }) r
directive Keyword.auth (a ∷ rest) line r = set_result (record (r.result) { auth_digest = a }) r
directive Keyword.ca (a ∷ rest) line r = set_result (record (r.result) { pki_ca_path = a }) r
directive Keyword.cert (a ∷ rest) line r = set_result (record (r.result) { pki_cert_path = a }) r
directive Keyword.key (a ∷ rest) line r = set_result (record (r.result) { pki_key_path = a }) r
directive Keyword.dh (a ∷ rest) line r =
    if equal_fold a (codes "none") then r else set_result (record (r.result) { pki_dh_path = a }) r
directive Keyword.tls_crypt (a ∷ rest) line r =
    set_result (record (r.result) { tls_crypt_path = a }) r
directive Keyword.tls_auth (a ∷ rest) line r =
    set_result (record (r.result) { static_key_path = a }) r
directive Keyword.secret (a ∷ rest) line r =
    set_result (record (r.result) { static_key_path = a; auth_mode = codes "static_key" }) r
directive Keyword.plugin (a ∷ rest) line r =
    set_result
      (record (r.result) { plugins = r.result.plugins ++ (record { path = a; args = rest } ∷ []) })
      r
directive Keyword.max_clients (a ∷ rest) line r =
    set_result (record (r.result) { max_clients = number_or r.result.max_clients a }) r
directive Keyword.tls_version_min (a ∷ rest) line r =
    set_result (record (r.result) { tls_version_min = a }) r
directive Keyword.tun_mtu (a ∷ rest) line r =
    set_result (record (r.result) { tun_mtu = number_or r.result.tun_mtu a }) r
directive Keyword.sndbuf (a ∷ rest) line r =
    set_result (record (r.result) { sndbuf = number_or r.result.sndbuf a }) r
directive Keyword.rcvbuf (a ∷ rest) line r =
    set_result (record (r.result) { rcvbuf = number_or r.result.rcvbuf a }) r
directive Keyword.server_ipv6 (a ∷ rest) line r =
    set_result (record (r.result) { server_ipv6 = a }) r

-- The line without the spaces around it and without its comment.
abbrev pub strip_line : Bytes → Bytes
strip_line raw =
    let line = trim_space raw in
    if bytes_eq line [] || starts_with (codes "#") line || starts_with (codes ";") line
    then []
    else elim (index_unquoted line b'#') [ none ↦ line | some i ↦ trim_space (take i line) ]

abbrev pub read_fields : List Bytes → Bytes → Reader → Reader
read_fields [] line r = r
read_fields (k ∷ args) line r = directive (keyword (to_lower k)) args line r

-- One round of the loop.
unfoldable pub read_line : Bytes → Reader → Reader
unfolding directive
read_line raw r =
    let line = strip_line raw in
    if bytes_eq line [] || should_ignore (to_lower line)
    then r
    else read_fields (split_fields line) line r

unfoldable pub read_lines : List Bytes → Reader → Reader
unfolding read_line
read_lines [] r = r
read_lines (l ∷ ls) r = read_lines ls (read_line l r)

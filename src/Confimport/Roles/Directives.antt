-- ===== src/Confimport/Roles/Directives.antt =====
-- Which directives give a role (internal/confimport/parse.go), and that the others give none.
use openvpnd.Base.{
  ◌≡◌, refl, ap, Bool, true, false, not, ◌&&◌, ◌||◌, List, [], ◌∷◌, ◌++◌, ltb, length, if_lem,
  if◌then◌else◌, arith,
}
use openvpnd.Base.Text.{Bytes, codes, bytes_eq, to_lower}
use openvpnd.Base.Strings.{equal_fold, starts_with}
use openvpnd.Confimport.{Result, Remote}
use openvpnd.Confimport.Push.{extract_push_payload}
use openvpnd.Confimport.Keyword.{Keyword}
use openvpnd.Confimport.Parse.Line.{Reader, directive, push_line, remote_of, device}
use openvpnd.Confimport.Roles.Pushed.{Agrees, push_line-Agrees}

-- Whether a directive gives a role.
abbrev pub gives_role : Keyword → List Bytes → Bool
gives_role Keyword.client args = true
gives_role Keyword.server args = true
gives_role Keyword.tls_server args = true
gives_role Keyword.tls_client args = true
gives_role Keyword.mode [] = false
gives_role Keyword.mode (a ∷ rest) = equal_fold a (codes "server")
gives_role Keyword.remote [] = false
gives_role Keyword.remote (a ∷ rest) = true
gives_role k args = false

-- What the role depends on.
abbrev pub undecided_result : Result → Bool
undecided_result r =
    bytes_eq r.role [] && not (ltb 0 (length r.remotes)) && not (not (bytes_eq r.server_network []))

abbrev pub undecided : Reader → Bool
undecided r = not r.saw_client && not r.saw_server && undecided_result r.result

undecided_agree : (r s : Result) → Agrees r s → undecided_result s ≡ undecided_result r
undecided_agree r s h = rw (h.0, h.1, h.2) refl

device-undecided : (dev : Bytes) (r : Result) → undecided_result (device dev r) ≡ undecided_result r
device-undecided dev r =
    let low = to_lower dev in
    let same : Result → Type 0 = λ s. undecided_result s ≡ undecided_result r in
    if_lem same (bytes_eq low (codes "tun") || bytes_eq low (codes "tap")) (λ _. refl)
      (λ _.
        if_lem same (starts_with (codes "tun") low) (λ _. refl)
          (λ _. if_lem same (starts_with (codes "tap") low) (λ _. refl) (λ _. refl)))

-- A reader that has seen a server is decided.
saw_server-undecided : (b c : Bool) → (b && false && c) ≡ false
saw_server-undecided true c = refl
saw_server-undecided false c = refl

-- A result with a remote is decided.
remote-undecided :
    (a b c d : Bool) (xs : List Remote) (x : Remote)
    → (a && b && (c && not (ltb 0 (length (xs ++ (x ∷ [])))) && d)) ≡ false
remote-undecided a b c d [] x = ground arith
remote-undecided a b c d (y ∷ xs) x = ground arith

if_undecided :
    (b : Bool) (r s : Reader)
    → undecided s ≡ false
    → undecided (if b then s else r) ≡ (if b then false else undecided r)
if_undecided true r s h = h
if_undecided false r s h = refl

pub directive-undecided :
    (k : Keyword) (args : List Bytes) (line : Bytes) (r : Reader)
    → undecided (directive k args line r) ≡ (if gives_role k args then false else undecided r)
unfolding directive
directive-undecided Keyword.client args line r = refl
directive-undecided Keyword.server args line r =
    saw_server-undecided (not r.saw_client)
      (undecided_result ((directive Keyword.server args line r).result))
directive-undecided Keyword.tls_server args line r =
    saw_server-undecided (not r.saw_client)
      (undecided_result ((directive Keyword.tls_server args line r).result))
directive-undecided Keyword.tls_client args line r = refl
directive-undecided Keyword.mode [] line r = refl
directive-undecided Keyword.mode (a ∷ rest) line r =
    if_undecided (equal_fold a (codes "server")) r
      (record r { saw_server = true; result = record (r.result) { role = codes "server" } })
      (saw_server-undecided (not r.saw_client)
        (undecided_result (record (r.result) { role = codes "server" })))
directive-undecided Keyword.remote [] line r = refl
directive-undecided Keyword.remote (a ∷ rest) line r =
    remote-undecided (not r.saw_client) (not r.saw_server) (bytes_eq r.result.role [])
      (not (not (bytes_eq r.result.server_network []))) r.result.remotes (remote_of a rest)
directive-undecided Keyword.redirect_gateway [] line r = refl
directive-undecided Keyword.redirect_gateway (a ∷ rest) line r = refl
directive-undecided Keyword.push args line r =
    ap (λ u. not r.saw_client && not r.saw_server && u)
      (undecided_agree r.result (push_line (extract_push_payload line) r.result)
        (push_line-Agrees (extract_push_payload line) r.result))
directive-undecided Keyword.ifconfig_pool [] line r = refl
directive-undecided Keyword.ifconfig_pool (a ∷ []) line r = refl
directive-undecided Keyword.ifconfig_pool (a ∷ b ∷ rest) line r = refl
directive-undecided Keyword.other args line r = refl
directive-undecided Keyword.dev [] line r = refl
directive-undecided Keyword.dev (a ∷ rest) line r =
    ap (λ u. not r.saw_client && not r.saw_server && u) (device-undecided a r.result)
directive-undecided Keyword.dh [] line r = refl
directive-undecided Keyword.dh (a ∷ rest) line r =
    if_lem (λ s. undecided s ≡ undecided r) (equal_fold a (codes "none")) (λ _. refl) (λ _. refl)
directive-undecided Keyword.proto [] line r = refl
directive-undecided Keyword.proto (a ∷ rest) line r = refl
directive-undecided Keyword.port [] line r = refl
directive-undecided Keyword.port (a ∷ rest) line r = refl
directive-undecided Keyword.local_bind [] line r = refl
directive-undecided Keyword.local_bind (a ∷ rest) line r = refl
directive-undecided Keyword.dev_type [] line r = refl
directive-undecided Keyword.dev_type (a ∷ rest) line r = refl
directive-undecided Keyword.topology [] line r = refl
directive-undecided Keyword.topology (a ∷ rest) line r = refl
directive-undecided Keyword.cipher [] line r = refl
directive-undecided Keyword.cipher (a ∷ rest) line r = refl
directive-undecided Keyword.data_ciphers [] line r = refl
directive-undecided Keyword.data_ciphers (a ∷ rest) line r = refl
directive-undecided Keyword.auth [] line r = refl
directive-undecided Keyword.auth (a ∷ rest) line r = refl
directive-undecided Keyword.ca [] line r = refl
directive-undecided Keyword.ca (a ∷ rest) line r = refl
directive-undecided Keyword.cert [] line r = refl
directive-undecided Keyword.cert (a ∷ rest) line r = refl
directive-undecided Keyword.key [] line r = refl
directive-undecided Keyword.key (a ∷ rest) line r = refl
directive-undecided Keyword.tls_crypt [] line r = refl
directive-undecided Keyword.tls_crypt (a ∷ rest) line r = refl
directive-undecided Keyword.tls_auth [] line r = refl
directive-undecided Keyword.tls_auth (a ∷ rest) line r = refl
directive-undecided Keyword.secret [] line r = refl
directive-undecided Keyword.secret (a ∷ rest) line r = refl
directive-undecided Keyword.plugin [] line r = refl
directive-undecided Keyword.plugin (a ∷ rest) line r = refl
directive-undecided Keyword.max_clients [] line r = refl
directive-undecided Keyword.max_clients (a ∷ rest) line r = refl
directive-undecided Keyword.tls_version_min [] line r = refl
directive-undecided Keyword.tls_version_min (a ∷ rest) line r = refl
directive-undecided Keyword.tun_mtu [] line r = refl
directive-undecided Keyword.tun_mtu (a ∷ rest) line r = refl
directive-undecided Keyword.sndbuf [] line r = refl
directive-undecided Keyword.sndbuf (a ∷ rest) line r = refl
directive-undecided Keyword.rcvbuf [] line r = refl
directive-undecided Keyword.rcvbuf (a ∷ rest) line r = refl
directive-undecided Keyword.server_ipv6 [] line r = refl
directive-undecided Keyword.server_ipv6 (a ∷ rest) line r = refl

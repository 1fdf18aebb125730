-- ===== src/Confimport/Parse/Finish.antt =====
-- What `Parse` does behind its loop (internal/confimport/parse.go).
use openvpnd.Base.{
  ℕ, suc, Bool, not, ◌&&◌, ◌||◌, Option, none, some, List, [], ◌∷◌, ◌++◌, ltb, ◌==◌, length,
  if◌then◌else◌, ◌>>=◌,
}
use openvpnd.Base.Text.{Bytes, codes, bytes_eq, trim_space}
use openvpnd.Base.Decimal.{format_uint}
use openvpnd.Base.Strings.{starts_with, join, trim_right, quote}
use openvpnd.Confimport.{Plugin, Result}
use openvpnd.Confimport.Parse.Line.{Reader}

abbrev warn : Bytes → Result → Result
warn text r = record r { warnings = r.warnings ++ (text ∷ []) }

-- The role that the markers and the result give, if any.
unfoldable pub infer_role : Bytes → Bool → Bool → Bool → Bool → Option Bytes
infer_role role saw_client saw_server has_remotes has_network =
    if not (bytes_eq role [])
    then some role
    else if saw_server
    then some (codes "server")
    else if saw_client || has_remotes
    then some (codes "client")
    else if has_network
    then some (codes "server")
    else none

abbrev pub role_of : Reader → Option Bytes
role_of r =
    infer_role r.result.role r.saw_client r.saw_server (ltb 0 (length r.result.remotes))
      (not (bytes_eq r.result.server_network []))

abbrev warn_conflict : Bool → Result → Result
warn_conflict both r =
    if both
    then warn (codes "conf has both client and server markers; using role=" ++ r.role) r
    else r

abbrev default_auth : Result → Result
default_auth r = if bytes_eq r.auth_mode [] then record r { auth_mode = codes "pki" } else r

-- `warnRel`.
abbrev warn_rel : Bytes → Bytes → Result → Result
warn_rel label p r =
    if bytes_eq p [] || starts_with (codes "/") p
    then r
    else warn
        (label
          ++ codes " path "
          ++ quote p
          ++ codes " is not absolute; create will require absolute paths")
        r

unfoldable pub warn_plugins : ℕ → List Plugin → Result → Result
warn_plugins i [] r = r
warn_plugins i (p ∷ ps) r = warn_plugins (suc i) ps (
    if bytes_eq p.path [] || starts_with (codes "/") p.path
    then r
    else warn
        (codes "plugins["
          ++ format_uint i
          ++ codes "] path "
          ++ quote p.path
          ++ codes " is not absolute")
        r)

abbrev warn_paths : Result → Result
warn_paths r = warn_plugins 0 r.plugins (
    warn_rel (codes "static_key") r.static_key_path (
      warn_rel (codes "tls-crypt") r.tls_crypt_path (
        warn_rel (codes "dh") r.pki_dh_path (
          warn_rel (codes "key") r.pki_key_path
            (warn_rel (codes "cert") r.pki_cert_path (warn_rel (codes "ca") r.pki_ca_path r))))))

-- The lines of pushed directives first, then the others.
unfoldable pub merged : Bytes → List Bytes → Bytes
merged pushed extra =
    let parts =
      (if bytes_eq (trim_space pushed) [] then [] else trim_right b'\n' pushed ∷ [])
      ++ (if length extra == 0 then [] else join (codes "\n") extra ∷ []) in
    if length parts == 0 then pushed else join (codes "\n") parts ++ codes "\n"

abbrev merge_extra : List Bytes → Result → Result
merge_extra extra r = record r { extra_directives = merged r.extra_directives extra }

abbrev pub finished : Reader → Bytes → Result
finished r role = merge_extra r.extra (
    warn_paths (
      default_auth
        (warn_conflict (r.saw_client && r.saw_server) (record (r.result) { role = role }))))

unfoldable pub finish : Reader → Option Result
unfolding infer_role
finish r = role_of r >>= λ role. some (finished r role)

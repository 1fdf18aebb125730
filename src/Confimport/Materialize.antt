-- ===== src/Confimport/Materialize.antt =====
-- The inline blocks as files (internal/confimport/inline.go). The file system is a parameter: whether the
-- directory can be made, and whether a file can be written. The error of a call is kept without its text.
use openvpnd.Base.{
  Bool, true, false, not, ◌||◌, none, some, List, [], ◌∷◌, ◌++◌, length, ◌==◌, if◌then◌else◌,
}
use openvpnd.Base.Text.{Bytes, codes, bytes_eq, trim_space, to_lower}
use openvpnd.Base.Strings.{contains, trim_right}
use openvpnd.Base.Paths.{join_path}
use openvpnd.Base.Assoc.{lookup}
use openvpnd.Confimport.{Result}

pub record Files : Type 0 where
  pub mkdir_all : Bytes → Bool
  pub write_file : Bytes → Bytes → Bool

-- Whether there was no error, and the result as it is then.
abbrev pub Written : Type 0
Written = Bool × Result

-- `appendDirective`.
unfoldable pub append_directive : Bytes → Bytes → Bytes
append_directive extra raw =
    let line = trim_space raw in
    if bytes_eq line []
    then extra
    else if bytes_eq (trim_space extra) []
    then line ++ codes "\n"
    else trim_right b'\n' extra ++ codes "\n" ++ line ++ codes "\n"

unfoldable pub keep_warnings : List Bytes → List Bytes
keep_warnings [] = []
keep_warnings (w ∷ ws) =
    let rest = keep_warnings ws in if contains w (codes "inline <") then rest else w ∷ rest

-- `clearInlineWarnings`.
abbrev pub clear_inline_warnings : Result → Result
clear_inline_warnings r = record r { warnings = keep_warnings r.warnings }

-- `HasInline`.
abbrev pub has_inline : Result → Bool
has_inline r = not (length r.inline == 0)

abbrev pub cert_name : Bytes → Bytes
cert_name role =
    if bytes_eq (to_lower role) (codes "server")
    then codes "server.crt"
    else if bytes_eq (to_lower role) (codes "client")
    then codes "client.crt"
    else codes "cert.crt"

abbrev pub key_name : Bytes → Bytes
key_name role =
    if bytes_eq (to_lower role) (codes "server")
    then codes "server.key"
    else if bytes_eq (to_lower role) (codes "client")
    then codes "client.key"
    else codes "key.key"

-- A tag, the file of its block, and what the path of the file is put into. A failed write leaves the empty
-- path in a field of its own, and nothing in the directives.
pub record Target : Type 0 where
  pub tag : Bytes
  pub file : Bytes
  pub store : Bytes → Result → Result
  pub failed : Result → Result

abbrev field : Bytes → Bytes → (Bytes → Result → Result) → Target
field tag file store = record { tag = tag; file = file; store = store; failed = store [] }

abbrev pub line : Bytes → Bytes → Target
line tag file = record {
  tag = tag;
  file = file;
  store = λ path r. record r {
    extra_directives = append_directive r.extra_directives (tag ++ codes " " ++ path);
  };
  failed = λ r. r;
}

abbrev pub ca : Target
ca = field (codes "ca") (codes "ca.crt") (λ p r. record r { pki_ca_path = p })

abbrev pub cert : Bytes → Target
cert role = field (codes "cert") (cert_name role) (λ p r. record r { pki_cert_path = p })

abbrev pub key : Bytes → Target
key role = field (codes "key") (key_name role) (λ p r. record r { pki_key_path = p })

abbrev pub tls_crypt : Target
tls_crypt =
    field (codes "tls-crypt") (codes "tls-crypt.key") (λ p r. record r { tls_crypt_path = p })

abbrev pub tls_auth : Target
tls_auth = field (codes "tls-auth") (codes "tls-auth.key") (λ p r. record r { static_key_path = p })

abbrev pub secret : Target
secret = record {
  tag = codes "secret";
  file = codes "static.key";
  store = λ p r. record r { static_key_path = p; auth_mode = codes "static_key" };
  failed = λ r. record r { static_key_path = [] };
}

abbrev pub dh : Target
dh = field (codes "dh") (codes "dh.pem") (λ p r. record r { pki_dh_path = p })

-- The targets in the order of the source.
abbrev pub targets : Bytes → List Target
targets role =
    ca
    ∷ cert role
    ∷ key role
    ∷ tls_crypt
    ∷ tls_auth
    ∷ secret
    ∷ dh
    ∷ line (codes "extra-certs") (codes "extra-certs.crt")
    ∷ line (codes "tls-crypt-v2") (codes "tls-crypt-v2.key")
    ∷ []

module _ (files : Files) (dest : Bytes) where
  unfoldable pub write_targets : List Target → Result → Written
  write_targets [] r = (true, clear_inline_warnings (record r { inline = [] }))
  write_targets (t ∷ ts) r = elim (lookup t.tag r.inline) [
    | none ↦ write_targets ts r
    | some body ↦ elim (files.write_file (join_path dest t.file) body) [
      | true ↦ write_targets ts (t.store (join_path dest t.file) r)
      | false ↦ (false, t.failed r)
    ]
  ]

-- `Materialize` of a result, into the directory `dest`.
unfoldable pub materialize : Files → Bytes → Result → Written
materialize files dest r =
    let dir = trim_space dest in
    if not (has_inline r)
    then (true, r)
    else if bytes_eq dir [] || not (files.mkdir_all dir)
    then (false, r)
    else write_targets files dir (targets r.role) r

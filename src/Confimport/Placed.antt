-- ===== src/Confimport/Placed.antt =====
-- Where `Materialize` puts each inline block (internal/confimport/inline.go), by the list of file names in its
-- documentation and the fields of the result.
use openvpnd.Base.{Bool, true, ◌&&◌, Option, none, some, List, [], ◌∷◌, ◌++◌, if◌then◌else◌}
use openvpnd.Base.Text.{Bytes, codes, bytes_eq, to_lower}
use openvpnd.Base.Paths.{join_path}
use openvpnd.Base.Assoc.{Assoc, lookup}
use openvpnd.Confimport.{Result}
use openvpnd.Confimport.Materialize.{Files, append_directive, keep_warnings}

-- The stem of the certificate's and the key's file, by role.
abbrev stem : Bytes → Bytes → Bytes
stem role other =
    if bytes_eq (to_lower role) (codes "server")
    then codes "server"
    else if bytes_eq (to_lower role) (codes "client")
    then codes "client"
    else other

-- The file of a block.
abbrev pub file_name : Bytes → Bytes → Bytes
file_name role tag =
    if bytes_eq tag (codes "ca")
    then codes "ca.crt"
    else if bytes_eq tag (codes "cert")
    then stem role (codes "cert") ++ codes ".crt"
    else if bytes_eq tag (codes "key")
    then stem role (codes "key") ++ codes ".key"
    else if bytes_eq tag (codes "secret")
    then codes "static.key"
    else if bytes_eq tag (codes "dh")
    then codes "dh.pem"
    else if bytes_eq tag (codes "extra-certs")
    then codes "extra-certs.crt"
    else tag ++ codes ".key"

abbrev writes : Files → Bytes → Bytes → Option Bytes → Bool
writes files dir file none = true
writes files dir file (some body) = files.write_file (join_path dir file) body

-- Every block of a tag of the list can be written to its file.
abbrev pub writes_all : Files → Bytes → Bytes → Assoc Bytes → List Bytes → Bool
writes_all files dir role blocks [] = true
writes_all files dir role blocks (tag ∷ tags) =
    writes files dir (file_name role tag) (lookup tag blocks)
    && writes_all files dir role blocks tags

-- The path of a block's file, or what stood there before.
abbrev path_or : Bytes → Bytes → Option Bytes → Bytes → Bytes
path_or dir file none old = old
path_or dir file (some body) old = join_path dir file

abbrev mode_or : Option Bytes → Bytes → Bytes
mode_or none old = old
mode_or (some body) old = codes "static_key"

abbrev line_or : Bytes → Bytes → Bytes → Option Bytes → Bytes → Bytes
line_or dir tag file none old = old
line_or dir tag file (some body) old = append_directive old (tag ++ codes " " ++ join_path dir file)

-- The result with the path of each block in its place, and without blocks. A static key takes the place of a
-- key for tls-auth, and sets the mode.
abbrev pub placed : Bytes → Result → Result
placed dir r =
    let block = λ (tag : Bytes). lookup tag r.inline in
    let path = λ (tag old : Bytes). path_or dir (file_name r.role tag) (block tag) old in
    let directive = λ (tag old : Bytes). line_or dir tag (file_name r.role tag) (block tag) old in
    record r {
      pki_ca_path = path (codes "ca") r.pki_ca_path;
      pki_cert_path = path (codes "cert") r.pki_cert_path;
      pki_key_path = path (codes "key") r.pki_key_path;
      tls_crypt_path = path (codes "tls-crypt") r.tls_crypt_path;
      static_key_path = path (codes "secret") (path (codes "tls-auth") r.static_key_path);
      auth_mode = mode_or (block (codes "secret")) r.auth_mode;
      pki_dh_path = path (codes "dh") r.pki_dh_path;
      extra_directives =
          directive (codes "tls-crypt-v2") (directive (codes "extra-certs") r.extra_directives);
      inline = [];
      warnings = keep_warnings r.warnings;
    }

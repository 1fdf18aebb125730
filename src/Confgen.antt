-- ===== src/Confgen.antt =====
-- The configurations that the program writes (internal/confgen). A text under construction is the list of
-- its lines; one that is taken over as a whole counts as one. Options and paths stand here, the parts of an instance's file in Server, Remotes, Crypto and
-- Shaper, the whole in Render; Ccd is the file of one client, Profile the file that a client gets.
pub mod Server
pub mod Remotes
pub mod Crypto
pub mod Shaper
pub mod Render
pub mod Ccd
pub mod Profile
pub mod FileNames
use openvpnd.Base.{
  ℕ, Bool, true, false, not, ◌||◌, Option, none, some, List, [], ◌∷◌, ◌++◌, ◌==◌, if◌then◌else◌,
}
use openvpnd.Base.Int.{ℤ, pos, negsuc, ltb_ℤ}
use openvpnd.Base.Decimal.{format_int}
use openvpnd.Base.Text.{Bytes, codes, bytes_eq, trim_space}
use openvpnd.Base.Strings.{has_byte, replace_byte}
use openvpnd.Base.Paths.{join_path}
use openvpnd.Models.{FeaturePreset}
use openvpnd.Netutil.Convert.{server_network_to_openvpn}

pub record RenderOptions : Type 0 where
  pub custom_presets : List FeaturePreset
  pub bandwidth_enforcement : Bytes
  pub instance_ca_pem : Bytes

pub record Paths : Type 0 where
  pub conf_dir : Bytes
  pub runtime_dir : Bytes
  pub name : Bytes

abbrev pub conf_file : Paths → Bytes
conf_file p = join_path p.conf_dir (p.name ++ codes ".conf")

abbrev pub pid_file : Paths → Bytes
pid_file p = join_path p.runtime_dir (p.name ++ codes ".pid")

abbrev pub mgmt_sock : Paths → Bytes
mgmt_sock p = join_path p.runtime_dir (p.name ++ codes ".mgmt.sock")

abbrev pub status_file : Paths → Bytes
status_file p = join_path p.runtime_dir (p.name ++ codes ".status")

-- `filepath.Join` of three names; the first is not empty.
abbrev pub ccd_dir : Paths → Bytes
ccd_dir p = join_path p.conf_dir (codes "ccd/" ++ p.name)

abbrev pub tmp_dir : Paths → Bytes
tmp_dir p = join_path p.runtime_dir (codes "tmp")

-- The text of lines.
unfoldable pub lines : List Bytes → Bytes
lines [] = []
lines (l ∷ ls) = l ++ codes "\n" ++ lines ls

abbrev pub is_set : Bytes → Bool
is_set s = not (bytes_eq s [])

abbrev pub when : Bool → List Bytes → List Bytes
when b ls = if b then ls else []

abbrev pub is_zero : ℤ → Bool
is_zero (pos n) = n == 0
is_zero (negsuc n) = false

abbrev pub or_default : Bytes → Bytes → Bytes
or_default s default = if bytes_eq s [] then default else s

-- A directive with one argument.
abbrev pub text_line : Bytes → Bytes → List Bytes
text_line name s = (name ++ codes " " ++ s) ∷ []

abbrev pub set_line : Bytes → Bytes → List Bytes
set_line name s = when (is_set s) (text_line name s)

abbrev pub number_line : Bytes → ℤ → List Bytes
number_line name n = text_line name (format_int n)

abbrev pub positive_line : Bytes → ℤ → List Bytes
positive_line name n = when (ltb_ℤ (pos 0) n) (number_line name n)

abbrev pub has_blank_or_quote : Bytes → Bool
has_blank_or_quote s = has_byte b' ' s || has_byte b'\t' s || has_byte b'"' s || has_byte b'\'' s

-- `quoteArg`.
unfoldable pub quote_arg : Bytes → Bytes
quote_arg [] = b'"' ∷ b'"' ∷ []
quote_arg (c ∷ s) =
    if has_blank_or_quote (c ∷ s)
    then b'"' ∷ replace_byte b'"' (b'\\' ∷ b'"' ∷ []) (c ∷ s) ++ (b'"' ∷ [])
    else c ∷ s

-- A route as a network and a mask when it is a CIDR, as it stands otherwise.
abbrev pub route_args : Bytes → Bytes
route_args r = elim (if has_byte b'/' r then server_network_to_openvpn r else none) [
  | none ↦ r
  | some (n, m) ↦ n ++ codes " " ++ m
]

abbrev pub pushed : Bytes → Bytes
pushed text = codes "push \"" ++ text ++ codes "\""

-- One line for each of the texts that is not blank.
unfoldable pub each_line : (Bytes → Bytes) → List Bytes → List Bytes
each_line line [] = []
each_line line (raw ∷ more) =
    let t = trim_space raw in when (is_set t) (line t ∷ []) ++ each_line line more

abbrev pub push_routes : List Bytes → List Bytes
push_routes = each_line (λ r. pushed (codes "route " ++ route_args r))

abbrev pub push_dns : List Bytes → List Bytes
push_dns = each_line (λ d. pushed (codes "dhcp-option DNS " ++ d))

abbrev pub push_domain : Bytes → List Bytes
push_domain d = when (is_set d) (pushed (codes "dhcp-option DOMAIN " ++ d) ∷ [])

abbrev pub push_gateway : Bool → List Bytes
push_gateway b = when b (pushed (codes "redirect-gateway def1 bypass-dhcp") ∷ [])

-- ===== src/Confimport/Push.antt =====
-- The directives that a server pushes (internal/confimport/parse.go).
use openvpnd.Base.{
  ℕ, true, ◌||◌, none, some, List, [], ◌∷◌, ◌++◌, ltb, ◌==◌, length, drop, if◌then◌else◌,
}
use openvpnd.Base.Text.{Bytes, codes, bytes_eq, trim_space, to_lower}
use openvpnd.Base.Strings.{to_upper, has_byte, before_last, trim_left, trim_right}
use openvpnd.Confimport.{Result}
use openvpnd.Confimport.Fields.{split_fields}
use openvpnd.Confimport.Mask.{Fallible, network_mask_to_cidr}

-- Up to the last closing quote; `strings.Trim` when there is none.
abbrev unwrap : ℕ → Bytes → Bytes
unwrap q [] = []
unwrap q (c ∷ s) = elim (before_last q s) [
  | some inner ↦ inner
  | none ↦ trim_right q (trim_left q (c ∷ s))
]

abbrev payload_of : Bytes → Bytes
payload_of [] = []
payload_of (c ∷ s) = if (c == b'"') || (c == b'\'') then unwrap c (c ∷ s) else c ∷ s

-- `extractPushPayload`.
unfoldable pub extract_push_payload : Bytes → Bytes
extract_push_payload line =
    let s = trim_space line in if ltb (length s) 5 then [] else payload_of (trim_space (drop 4 s))

abbrev pub keep_push : Bytes → Result → Result
keep_push payload r = record r {
  extra_directives = r.extra_directives ++ codes "push \"" ++ payload ++ codes "\"\n";
}

abbrev pub push_option : Bytes → List Bytes → Bytes → Result → Result
push_option opt args payload r =
    if bytes_eq opt (codes "DNS")
    then elim args [ [] ↦ r | a ∷ more ↦ record r { push_dns = r.push_dns ++ (a ∷ []) } ]
    else if bytes_eq opt (codes "DOMAIN")
        || bytes_eq opt (codes "DOMAIN-SEARCH")
        || bytes_eq opt (codes "ADAPTER_DOMAIN_SUFFIX")
    then elim args [
      | [] ↦ r
      | a ∷ more ↦
          if bytes_eq opt (codes "DOMAIN") || bytes_eq r.push_domain []
          then record r { push_domain = a }
          else r
    ]
    else keep_push payload r

abbrev pub add_route : Bytes → Result → Result
add_route cidr r = record r { push_routes = r.push_routes ++ (cidr ∷ []) }

-- What is no network with a mask is a CIDR, or kept more it is.
abbrev pub other_route : Bytes → Bytes → Result → Result
other_route first payload r = if has_byte b'/' first then add_route first r else keep_push payload r

abbrev pub push_route : List Bytes → Bytes → Result → Result
push_route [] payload r = keep_push payload r
push_route (n ∷ []) payload r = other_route n payload r
push_route (n ∷ m ∷ args) payload r = elim (network_mask_to_cidr n m) [
  | Fallible.ok cidr ↦ add_route cidr r
  | Fallible.fail e ↦ other_route n payload r
]

abbrev pub push_fields : List Bytes → Bytes → Result → Result
push_fields [] payload r = r
push_fields (k ∷ args) payload r =
    let key = to_lower k in
    if bytes_eq key (codes "redirect-gateway")
    then record r { redirect_gateway = true }
    else if bytes_eq key (codes "dhcp-option")
    then elim args [ [] ↦ r | o ∷ rest ↦ push_option (to_upper o) rest payload r ]
    else if bytes_eq key (codes "route")
    then push_route args payload r
    else keep_push payload r

-- `parsePush`; an empty payload has no fields.
unfoldable pub parse_push : Bytes → Result → Result
parse_push s r = let payload = trim_space s in push_fields (split_fields payload) payload r

-- ===== src/Confimport/Roles/Pushed.antt =====
-- A pushed directive (internal/confimport/parse.go) leaves the role, the remotes and the network.
use openvpnd.Base.{◌≡◌, refl, ◌||◌, List, [], ◌∷◌, if_lem}
use openvpnd.Base.Text.{Bytes, codes, bytes_eq, to_lower, trim_space}
use openvpnd.Base.Strings.{has_byte, to_upper}
use openvpnd.Confimport.{Result}
use openvpnd.Confimport.Fields.{split_fields}
use openvpnd.Confimport.Mask.{Fallible, network_mask_to_cidr}
use openvpnd.Confimport.Push.{
  parse_push, other_route, add_route, push_fields, push_option, push_route,
}
use openvpnd.Confimport.Parse.Line.{push_line}

-- The parts of a result that a pushed directive leaves.
abbrev pub Agrees : Result → Result → Type 0
Agrees r s = (s.role ≡ r.role) × (s.remotes ≡ r.remotes) × (s.server_network ≡ r.server_network)

other_route-Agrees : (first payload : Bytes) (r : Result) → Agrees r (other_route first payload r)
other_route-Agrees first payload r =
    if_lem (Agrees r) (has_byte b'/' first) (λ _. (refl, refl, refl)) (λ _. (refl, refl, refl))

push_route-Agrees :
    (args : List Bytes) (payload : Bytes) (r : Result) → Agrees r (push_route args payload r)
push_route-Agrees [] payload r = (refl, refl, refl)
push_route-Agrees (n ∷ []) payload r = other_route-Agrees n payload r
push_route-Agrees (n ∷ m ∷ args) payload r =
    elim (network_mask_to_cidr n m)
      as (λ f. Agrees r (elim f [
        | Fallible.ok cidr ↦ add_route cidr r
        | Fallible.fail e ↦ other_route n payload r
      ])) [
        | Fallible.ok cidr ↦ (refl, refl, refl)
        | Fallible.fail e ↦ other_route-Agrees n payload r
      ]

push_option-Agrees :
    (opt : Bytes) (args : List Bytes) (payload : Bytes) (r : Result)
    → Agrees r (push_option opt args payload r)
push_option-Agrees opt [] payload r =
    if_lem (Agrees r) (bytes_eq opt (codes "DNS")) (λ _. (refl, refl, refl))
      (λ _.
        if_lem (Agrees r)
          (bytes_eq opt (codes "DOMAIN")
            || bytes_eq opt (codes "DOMAIN-SEARCH")
            || bytes_eq opt (codes "ADAPTER_DOMAIN_SUFFIX"))
          (λ _. (refl, refl, refl)) (λ _. (refl, refl, refl)))
push_option-Agrees opt (a ∷ args) payload r =
    if_lem (Agrees r) (bytes_eq opt (codes "DNS")) (λ _. (refl, refl, refl))
      (λ _.
        if_lem (Agrees r)
          (bytes_eq opt (codes "DOMAIN")
            || bytes_eq opt (codes "DOMAIN-SEARCH")
            || bytes_eq opt (codes "ADAPTER_DOMAIN_SUFFIX"))
          (λ _.
            if_lem (Agrees r) (bytes_eq opt (codes "DOMAIN") || bytes_eq r.push_domain [])
              (λ _. (refl, refl, refl)) (λ _. (refl, refl, refl)))
          (λ _. (refl, refl, refl)))

dhcp_option-Agrees :
    (args : List Bytes) (payload : Bytes) (r : Result)
    → Agrees r (elim args [ [] ↦ r | o ∷ rest ↦ push_option (to_upper o) rest payload r ])
dhcp_option-Agrees [] payload r = (refl, refl, refl)
dhcp_option-Agrees (o ∷ rest) payload r = push_option-Agrees (to_upper o) rest payload r

push_fields-Agrees :
    (fields : List Bytes) (payload : Bytes) (r : Result) → Agrees r (push_fields fields payload r)
push_fields-Agrees [] payload r = (refl, refl, refl)
push_fields-Agrees (k ∷ args) payload r =
    if_lem (Agrees r) (bytes_eq (to_lower k) (codes "redirect-gateway")) (λ _. (refl, refl, refl))
      (λ _.
        if_lem (Agrees r) (bytes_eq (to_lower k) (codes "dhcp-option"))
          (λ _. dhcp_option-Agrees args payload r)
          (λ _.
            if_lem (Agrees r) (bytes_eq (to_lower k) (codes "route"))
              (λ _. push_route-Agrees args payload r) (λ _. (refl, refl, refl))))

pub push_line-Agrees : (payload : Bytes) (r : Result) → Agrees r (push_line payload r)
unfolding parse_push
push_line-Agrees payload r =
    if_lem (Agrees r) (bytes_eq payload []) (λ _. (refl, refl, refl))
      (λ _. push_fields-Agrees (split_fields (trim_space payload)) (trim_space payload) r)

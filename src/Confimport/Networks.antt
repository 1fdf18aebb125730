-- ===== src/Confimport/Networks.antt =====
-- The network that a configuration is written with (`ServerNetworkToOpenVPN` in internal/netutil/ip.go) is
-- the one that is imported from it (`networkMaskToCIDR` in internal/confimport/parse.go).
use native.Mathlib.Nat.{div-add-mod', mul-mod_left, pow-le-pow_right}
use openvpnd.Base.{
  ℕ, ◌-◌, ◌*◌, ◌/◌, ◌%◌, ◌^◌, ◌≤◌, ◌<◌, ◌≡◌, refl, ap, ◌∙◌, Bool, true, false, Option, none, some,
  List, ◌++◌, ◌==◌, all_below_at, arith, ◌>>=◌, Holds-some, ==_iff,
}
use openvpnd.Base.Text.{Bytes, codes, trim_space, trim_space_visible}
use openvpnd.Base.Decimal.{format_uint}
use openvpnd.Net.{parse_ipv4}
use openvpnd.Netutil.{parse_cidr, network, number}
use openvpnd.Netutil.Convert.{bytes_of, format_ipv4, mask, server_network_to_openvpn}
use openvpnd.Netutil.Hosts.{IsAddress, parse_cidr-IsAddress}
use openvpnd.Netutil.Dotted.{parse_ipv4-format_ipv4, number-bytes_of, format_ipv4-IsVisible}
use openvpnd.Confimport.Mask.{Fallible, mask_size, network_mask_to_cidr}

abbrev is_size : ℕ → Option ℕ → Bool
is_size n none = false
is_size n (some m) = m == n

is_size→eq : (n : ℕ) (o : Option ℕ) → is_size n o ≡ true → o ≡ some n
is_size→eq n none h = ground arith
is_size→eq n (some m) h = ap some ((==_iff m n).0 h)

-- Every mask of a prefix length has that length.
mask_size-mask : (n : ℕ) → n < 33 → mask_size (bytes_of (mask n)) ≡ some n
unfolding mask_size
mask_size-mask n h =
    is_size→eq n (mask_size (bytes_of (mask n)))
      (all_below_at 33 (λ i. is_size i (mask_size (bytes_of (mask i)))) refl n h)

-- The network address is the network address of itself.
network_twice : (a n : ℕ) → network (network a n) n ≡ network a n
network_twice a n =
    let p : ℕ = 2 ^ (32 - n) in
    let start : a - a % p ≡ a / p * p = omega (arith, div-add-mod' a p) in
    let again : (a - a % p) % p ≡ 0 = ap (λ x. x % p) start ∙ mul-mod_left (a / p) p in
    omega (arith, again)

read_network :
    (net text : Bytes) (bytes m : List ℕ) (ones : ℕ)
    → parse_ipv4 (trim_space net) ≡ some bytes
    → parse_ipv4 (trim_space text) ≡ some m
    → mask_size m ≡ some ones
    → network_mask_to_cidr net text
      ≡ Fallible.ok (format_ipv4 (network (number bytes) ones) ++ codes "/" ++ format_uint ones)
unfolding network_mask_to_cidr
read_network net text bytes m ones e f g = rw (e, f, g, network_mask_to_cidr) refl

read_address : (a : ℕ) → a < 2 ^ 32 → parse_ipv4 (trim_space (format_ipv4 a)) ≡ some (bytes_of a)
read_address a h =
    ap parse_ipv4 (trim_space_visible (format_ipv4 a) (format_ipv4-IsVisible a))
    ∙ parse_ipv4-format_ipv4 a h

network_mask_to_cidr-mask :
    (a n : ℕ)
    → a < 2 ^ 32
    → n ≤ 32
    → network_mask_to_cidr (format_ipv4 (network a n)) (format_ipv4 (mask n))
      ≡ Fallible.ok (format_ipv4 (network a n) ++ codes "/" ++ format_uint n)
network_mask_to_cidr-mask a n h k =
    let net = network a n in
    let small : net < 2 ^ 32 = omega (arith, h) in
    let positive : 0 < 2 ^ (32 - n) =
      pow-le-pow_right {n = 2} (omega arith) {i = 0} {j = 32 - n} (omega arith) in
    let read =
      read_network (format_ipv4 net) (format_ipv4 (mask n)) (bytes_of net) (bytes_of (mask n)) n
        (read_address net small) (read_address (mask n) (omega (arith, positive)))
        (mask_size-mask n (omega (arith, k))) in
    read
    ∙ ap (λ x. Fallible.ok (format_ipv4 x ++ codes "/" ++ format_uint n))
        (ap (λ y. network y n) (number-bytes_of net small) ∙ network_twice a n)

-- A network that the renderer writes as an address and a mask is imported as the address of the network
-- and the prefix length, whatever the host part and the spaces of the text that it was given as.
pub network_mask_to_cidr-server_network_to_openvpn :
    (cidr : Bytes) (a n : ℕ)
    → parse_cidr (trim_space cidr) ≡ some (a, n)
    → (server_network_to_openvpn cidr >>= λ r. some (network_mask_to_cidr r.0 r.1))
      ≡ some (Fallible.ok (format_ipv4 (network a n) ++ codes "/" ++ format_uint n))
unfolding server_network_to_openvpn
network_mask_to_cidr-server_network_to_openvpn cidr a n e =
    let valid =
      Holds-some IsAddress (parse_cidr (trim_space cidr)) (parse_cidr-IsAddress (trim_space cidr))
        e in
    rw (e, server_network_to_openvpn) (ap some (network_mask_to_cidr-mask a n valid.0 valid.1))

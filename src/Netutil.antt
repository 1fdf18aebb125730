-- ===== src/Netutil.antt =====
-- Addresses of the tunnel networks (internal/netutil/ip.go), in IPv4 notation: an address is its number
-- below 2^32. Addresses in IPv6 notation count as errors here, which in the source differs for the mapped
-- form `::ffff:a.b.c.d` only.
pub mod Hosts
pub mod Convert
pub mod Dotted
use openvpnd.Base.{
  ℕ, zero, suc, ◌+◌, ◌-◌, ◌*◌, ◌%◌, ◌^◌, ◌≡◌, refl, Bool, true, false, not, ◌&&◌, ◌||◌, Option,
  none, some, List, [], ◌∷◌, ◌++◌, ltb, leb, ◌==◌, ◌>>=◌, if◌then◌else◌,
}
use openvpnd.Base.Text.{Bytes, codes, trim_space}
use openvpnd.Net.{parse_ipv4, is_digit}

-- The number of four bytes, the first one highest.
unfoldable pub number : List ℕ → ℕ
number (a ∷ b ∷ c ∷ d ∷ []) = ((a * 256 + b) * 256 + c) * 256 + d
number bs = 0

-- `net.ParseCIDR`: what stands before the first slash is the address, the rest the prefix.
unfoldable pub cut_slash : Bytes → Bytes → Option (Bytes × Bytes)
cut_slash front [] = none
cut_slash front (c ∷ s) = if c == b'/' then some (front, s) else cut_slash (front ++ (c ∷ [])) s

unfoldable pub prefix_digits : ℕ → Bytes → Option ℕ
prefix_digits n [] = some n
prefix_digits n (c ∷ s) =
    let rest = prefix_digits (n * 10 + (c - b'0')) s in
    if not (is_digit c) || ltb 32 (n * 10 + (c - b'0')) then none else rest

unfoldable pub parse_prefix : Bytes → Option ℕ
unfolding prefix_digits
parse_prefix [] = none
parse_prefix (c ∷ s) = prefix_digits 0 (c ∷ s)

-- The address and the prefix length.
unfoldable pub parse_cidr : Bytes → Option (ℕ × ℕ)
unfolding number cut_slash parse_prefix
parse_cidr s = do
  (front, back) ← cut_slash [] s
  bytes ← parse_ipv4 front
  n ← parse_prefix back
  some (number bytes, n)

abbrev has_slash : Bytes → Bool
has_slash [] = false
has_slash (c ∷ s) = (c == b'/') || has_slash s

abbrev address_of : Option (ℕ × ℕ) → Option ℕ
address_of none = none
address_of (some (a, n)) = some a

-- `NormalizeHostIP`.
unfoldable pub normalize_host_ip : Bytes → Option ℕ
unfolding number parse_cidr
normalize_host_ip s =
    let t = trim_space s in
    if has_slash t
    then address_of (parse_cidr t)
    else (parse_ipv4 t >>= λ bytes. some (number bytes))

unfoldable pub normalize_all : List Bytes → List ℕ
unfolding normalize_host_ip
normalize_all [] = []
normalize_all (u ∷ us) = elim (normalize_host_ip u) [
  | none ↦ normalize_all us
  | some a ↦ a ∷ normalize_all us
]

-- The network's own address, and `lastIPv4`: the mask's free bits all 0, and all 1.
abbrev pub network : ℕ → ℕ → ℕ
network a n = a - a % 2 ^ (32 - n)

abbrev pub last_ipv4 : ℕ → ℕ → ℕ
last_ipv4 a n = network a n + (2 ^ (32 - n) - 1)

-- `incIP`; past the last address it starts again at 0.
abbrev pub inc_ip : ℕ → ℕ
inc_ip a = (a + 1) % 2 ^ 32

abbrev pub is_used : ℕ → List ℕ → Bool
is_used a [] = false
is_used a (b ∷ bs) = (a == b) || is_used a bs

-- The loop of `AllocateNextHost`, with fuel.
unfoldable pub next_host : ℕ → List ℕ → ℕ → ℕ → Option ℕ
next_host zero used bcast ip = none
next_host (suc fuel) used bcast ip = elim (ip == bcast) [
  | true ↦ none
  | false ↦ elim (is_used ip used) [
    | true ↦ next_host fuel used bcast (inc_ip ip)
    | false ↦ some ip
  ]
]

-- The set of used addresses, with the network's, the last and the server's.
unfoldable pub used_set : ℕ → ℕ → List Bytes → List ℕ
unfolding normalize_all
used_set a n used = inc_ip (network a n) ∷ last_ipv4 a n ∷ network a n ∷ normalize_all used

-- `AllocateNextHost`; the fuel is as many rounds as there are addresses. The result is the
-- address whose dotted form the source returns.
unfoldable pub allocate_next_host : Bytes → List Bytes → Option ℕ
unfolding next_host used_set parse_cidr
allocate_next_host cidr used = parse_cidr (trim_space cidr) >>= λ r.
    next_host (2 ^ 32) (used_set r.0 r.1 used) (last_ipv4 r.0 r.1)
      (inc_ip (inc_ip (network r.0 r.1)))

unfoldable pub pool_is_usable : Option (ℕ × ℕ) → Bool
pool_is_usable none = false
pool_is_usable (some (a, n)) = leb n 30 && leb 8 n

-- `ValidateServerNetwork`.
unfoldable pub validate_server_network : Bytes → Bool
unfolding pool_is_usable parse_cidr
validate_server_network cidr = pool_is_usable (parse_cidr (trim_space cidr))

-- `IPInCIDR`.
unfoldable pub ip_in_cidr : Bytes → Bytes → Bool
unfolding number parse_cidr
ip_in_cidr ip cidr = elim (parse_ipv4 (trim_space ip)) [
  | none ↦ false
  | some bytes ↦ elim (parse_cidr (trim_space cidr)) [
    | none ↦ false
    | some (a, n) ↦ network (number bytes) n == network a n
  ]
]

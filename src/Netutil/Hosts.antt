-- ===== src/Netutil/Hosts.antt =====
-- The address that is handed out is the first free one of the pool.
use native.Mathlib.Omega.{pow_step}
use native.Mathlib.Nat.{div-lt_iff_lt-mul, mul-le-mul_right, div-add-mod', pow-le-pow_right}
use openvpnd.Base.{
  ℕ, zero, suc, ◌+◌, ◌-◌, ◌*◌, ◌/◌, ◌%◌, ◌^◌, ◌≤◌, ◌<◌, ◌≡◌, inl, inr, true, false, not, ◌&&◌, ◌||◌,
  Option, none, some, List, [], ◌∷◌, ◌++◌, ltb, ◌==◌, arith, All, All-append, Bool-cases, Holds,
  Holds-bind, Holds-any, Holds-some, if_lem, ap, ◌∙◌,
}
use openvpnd.Base.Text.{Bytes, trim_space}
use openvpnd.Net.{ipv4_fields, parse_ipv4, is_digit}
use openvpnd.Netutil.{
  number, parse_cidr, cut_slash, prefix_digits, parse_prefix, network, last_ipv4, inc_ip, is_used,
  next_host, used_set, allocate_next_host, pool_is_usable, validate_server_network,
}

-- The first address of [low, high) that is not used, or that all are.
abbrev pub IsFirstFree : ℕ → ℕ → List ℕ → Option ℕ → Type 0
IsFirstFree low high used none = (b : ℕ) → low ≤ b → b < high → is_used b used ≡ true
IsFirstFree low high used (some a) =
    (low ≤ a)
    × (a < high)
    × (is_used a used ≡ false)
    × ((b : ℕ) → low ≤ b → b < a → is_used b used ≡ true)

IsFirstFree-behind :
    (low high : ℕ) (used : List ℕ) (o : Option ℕ)
    → low < high
    → is_used low used ≡ true
    → IsFirstFree (low + 1) high used o
    → IsFirstFree low high used o
IsFirstFree-behind low high used none k u h = λ b l r. elim (Bool-cases (b == low)) [
  | inl e ↦ ground (arith, u, e)
  | inr e ↦ h b (ground (arith, e)) r
]
IsFirstFree-behind low high used (some a) k u h = (
  omega (arith, h.0),
  h.1,
  h.2,
  λ b l r. elim (Bool-cases (b == low)) [
    | inl e ↦ ground (arith, u, e)
    | inr e ↦ h.3 b (ground (arith, e)) r
  ],
)

module _ (fuel low high : ℕ) (used : List ℕ) where
  next_host_end : (low == high) ≡ true → next_host (suc fuel) used high low ≡ none
  unfolding next_host
  next_host_end e = ground (arith, e)

  next_host_free :
      (low == high) ≡ false
      → is_used low used ≡ false
      → next_host (suc fuel) used high low ≡ some low
  unfolding next_host
  next_host_free e u = ground (arith, e, u)

  next_host_used :
      (low == high) ≡ false
      → is_used low used ≡ true
      → next_host (suc fuel) used high low ≡ next_host fuel used high (inc_ip low)
  unfolding next_host
  next_host_used e u = ground (arith, e, u)

-- With a round for every address of the rest of the pool, the loop finds the first free one.
next_host-IsFirstFree :
    (fuel low high : ℕ) (used : List ℕ)
    → high < low + fuel
    → low ≤ high
    → high < 2 ^ 32
    → IsFirstFree low high used (next_host fuel used high low)
unfolding next_host
next_host-IsFirstFree zero low high used f l k = absurd (omega arith)
next_host-IsFirstFree (suc fuel) low high used f l k = elim (Bool-cases (low == high)) [
  | inl e ↦ rw (next_host_end fuel low high used e) (λ b p q. absurd (ground (arith, e)))
  | inr e ↦ elim (Bool-cases (is_used low used)) [
    | inr u ↦
        rw (next_host_free fuel low high used e u)
          (omega arith, ground (arith, e), u, λ b p q. absurd (omega arith))
    | inl u ↦
        let step : inc_ip low ≡ low + 1 = ground (arith, e) in
        rw (next_host_used fuel low high used e u, step)
          (IsFirstFree-behind low high used (next_host fuel used high (low + 1)) (ground (arith, e))
            u
            (next_host-IsFirstFree fuel (low + 1) high used (ground (arith, e)) (ground (arith, e))
              k))
  ]
]

abbrev AreBytes : List ℕ → Type 0
AreBytes = All (λ b. b ≤ 255)

ipv4_fields-AreBytes :
    (k len v : ℕ) (done : List ℕ) (s : Bytes)
    → v ≤ 255
    → AreBytes done
    → Holds AreBytes (ipv4_fields k len v done s)
unfolding ipv4_fields
ipv4_fields-AreBytes k len v done [] h d =
    if_lem (Holds AreBytes) ((k == 0) && ltb 0 len) (λ _. All-append _ done (v ∷ []) d (h, tt))
      (λ _. tt)
ipv4_fields-AreBytes zero len v done (c ∷ s) h d =
    if_lem (Holds AreBytes)
      (not (is_digit c) || ((len == 1) && (v == 0)) || ltb 255 (v * 10 + (c - b'0'))) (λ _. tt)
      (λ e. ipv4_fields-AreBytes zero (suc len) (v * 10 + (c - b'0')) done s (ground (arith, e)) d)
ipv4_fields-AreBytes (suc k) len v done (c ∷ s) h d =
    if_lem (Holds AreBytes) (c == b'.')
      (λ _.
        if_lem (Holds AreBytes) (len == 0) (λ _. tt)
          (λ _.
            ipv4_fields-AreBytes k 0 0 (done ++ (v ∷ [])) s (omega arith)
              (All-append _ done (v ∷ []) d (h, tt))))
      (λ _.
        if_lem (Holds AreBytes)
          (not (is_digit c) || ((len == 1) && (v == 0)) || ltb 255 (v * 10 + (c - b'0'))) (λ _. tt)
          (λ e.
            ipv4_fields-AreBytes (suc k) (suc len) (v * 10 + (c - b'0')) done s (ground (arith, e))
              d))

parse_ipv4-AreBytes : (s : Bytes) → Holds AreBytes (parse_ipv4 s)
unfolding parse_ipv4
parse_ipv4-AreBytes s = ipv4_fields-AreBytes 3 0 0 [] s (omega arith) tt

number-AreBytes : (bs : List ℕ) → AreBytes bs → number bs < 2 ^ 32
unfolding number
number-AreBytes [] h = omega arith
number-AreBytes (a ∷ []) h = omega arith
number-AreBytes (a ∷ b ∷ []) h = omega arith
number-AreBytes (a ∷ b ∷ c ∷ []) h = omega arith
number-AreBytes (a ∷ b ∷ c ∷ d ∷ []) h = omega arith
number-AreBytes (a ∷ b ∷ c ∷ d ∷ e ∷ bs) h = omega arith

prefix_digits_at_most : (n : ℕ) (s : Bytes) → n ≤ 32 → Holds (λ m. m ≤ 32) (prefix_digits n s)
unfolding prefix_digits
prefix_digits_at_most n [] h = h
prefix_digits_at_most n (c ∷ s) h =
    if_lem (Holds (λ m. m ≤ 32)) (not (is_digit c) || ltb 32 (n * 10 + (c - b'0'))) (λ _. tt)
      (λ e. prefix_digits_at_most (n * 10 + (c - b'0')) s (ground arith))

parse_prefix_at_most : (s : Bytes) → Holds (λ m. m ≤ 32) (parse_prefix s)
unfolding parse_prefix
parse_prefix_at_most [] = tt
parse_prefix_at_most (c ∷ s) = prefix_digits_at_most 0 (c ∷ s) (omega arith)

-- An address and a prefix length of it.
abbrev pub IsAddress : ℕ × ℕ → Type 0
IsAddress r = (r.0 < 2 ^ 32) × (r.1 ≤ 32)

pub parse_cidr-IsAddress : (s : Bytes) → Holds IsAddress (parse_cidr s)
unfolding parse_cidr
parse_cidr-IsAddress s =
    Holds-bind (λ _. Unit {0}) IsAddress (cut_slash [] s) _ (Holds-any _)
      λ cut _.
        Holds-bind AreBytes IsAddress (parse_ipv4 cut.0) _ (parse_ipv4-AreBytes cut.0) λ bytes h.
          Holds-bind (λ m. m ≤ 32) IsAddress (parse_prefix cut.1) _ (parse_prefix_at_most cut.1)
            λ n k. (number-AreBytes bytes h, k)

pow_split : (m k : ℕ) → 2 ^ m * 2 ^ k ≡ 2 ^ (m + k)
pow_split zero k = grind arith
pow_split (suc m) k = grind (arith, pow_split m k, pow_step 2 m, pow_step 2 (m + k))

-- A block of `p` addresses that starts at a multiple of `p` ends below a limit that `p` divides.
block_bounds :
    (a p q : ℕ)
    → a < q * p
    → 4 ≤ p
    → (a - a % p + 2 ≤ a - a % p + (p - 1)) × (a - a % p + (p - 1) < q * p)
block_bounds a p q h k =
    let above : 0 < p = omega arith in
    let quotient : a / p < q = (div-lt_iff_lt-mul {k = p} {x = a} {y = q} above).1 h in
    let whole : suc (a / p) * p ≤ q * p =
      mul-le-mul_right {m = suc (a / p)} {n = q} p (omega arith) in
    let split = div-add-mod' a p in (omega arith, grind (arith, split, whole))

-- A pool of a size that is accepted ends inside the addresses.
pool_bounds :
    (a n : ℕ) → a < 2 ^ 32 → n ≤ 30 → (network a n + 2 ≤ last_ipv4 a n) × (last_ipv4 a n < 2 ^ 32)
pool_bounds a n h k =
    let sum : n + (32 - n) ≡ 32 = omega arith in
    let all : 2 ^ n * 2 ^ (32 - n) ≡ 2 ^ 32 = pow_split n (32 - n) ∙ ap (λ e. 2 ^ e) sum in
    let four : 4 ≤ 2 ^ (32 - n) =
      pow-le-pow_right {n = 2} (omega arith) {i = 2} {j = 32 - n} (omega arith) in
    rw all at (block_bounds a (2 ^ (32 - n)) (2 ^ n) (rw all h) four)

-- For a network that `ValidateServerNetwork` accepts, `AllocateNextHost` returns the first address behind
-- the network's and the server's, and before the last of the network, that is neither in use nor one of
-- these; it fails exactly when there is none.
pub allocate_next_host-IsFirstFree :
    (cidr : Bytes) (used : List Bytes) (a n : ℕ)
    → validate_server_network cidr ≡ true
    → parse_cidr (trim_space cidr) ≡ some (a, n)
    → IsFirstFree
        (network a n + 2)
        (last_ipv4 a n)
        (used_set a n used)
        (allocate_next_host cidr used)
unfolding allocate_next_host validate_server_network pool_is_usable
allocate_next_host-IsFirstFree cidr used a n v e =
    let size : n ≤ 30 = ground (arith, rw e at v) in
    let small =
      Holds-some IsAddress (parse_cidr (trim_space cidr)) (parse_cidr-IsAddress (trim_space cidr))
        e in
    let bounds = pool_bounds a n small.0 size in
    let first : inc_ip (inc_ip (network a n)) ≡ network a n + 2 =
      omega (arith, bounds.0, bounds.1) in
    rw (e, first)
      (next_host-IsFirstFree (2 ^ 32) (network a n + 2) (last_ipv4 a n) (used_set a n used)
        (omega (arith, bounds.1)) (bounds.0) (bounds.1))

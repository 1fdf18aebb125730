-- ===== src/Net.antt =====
-- Go's `net.ParseIP`, as far as the code asks for it: whether a text is an IPv4 or IPv6 address
-- without a zone, and the four bytes of an IPv4 address.
use openvpnd.Base.{
  ℕ, zero, suc, ◌+◌, ◌-◌, ◌*◌, Bool, true, false, not, ◌&&◌, ◌||◌, Option, none, some, List, [],
  ◌∷◌, ◌++◌, ltb, leb, ◌==◌, length, drop, if◌then◌else◌,
}
use openvpnd.Base.Text.{Bytes}

abbrev pub is_digit : ℕ → Bool
is_digit c = leb b'0' c && leb c b'9'

abbrev is_hex : ℕ → Bool
is_hex c = is_digit c || (leb b'a' c && leb c b'f') || (leb b'A' c && leb c b'F')

-- The fields after those in `done`; `k` more are wanted behind the current one, of which `len`
-- digits with the value `v` are read.
unfoldable pub ipv4_fields : ℕ → ℕ → ℕ → List ℕ → Bytes → Option (List ℕ)
ipv4_fields k len v done [] = if (k == 0) && ltb 0 len then some (done ++ (v ∷ [])) else none
ipv4_fields zero len v done (c ∷ s) =
    let rest = ipv4_fields zero (suc len) (v * 10 + (c - b'0')) done s in
    if not (is_digit c) || ((len == 1) && (v == 0)) || ltb 255 (v * 10 + (c - b'0'))
    then none
    else rest
ipv4_fields (suc k) len v done (c ∷ s) =
    let more = ipv4_fields (suc k) (suc len) (v * 10 + (c - b'0')) done s in
    let next = ipv4_fields k 0 0 (done ++ (v ∷ [])) s in
    if c == b'.'
    then (if len == 0 then none else next)
    else if not (is_digit c) || ((len == 1) && (v == 0)) || ltb 255 (v * 10 + (c - b'0'))
    then none
    else more

unfoldable pub parse_ipv4 : Bytes → Option (List ℕ)
unfolding ipv4_fields
parse_ipv4 s = ipv4_fields 3 0 0 [] s

-- How many hexadecimal digits a text starts with.
hex_run : Bytes → ℕ
hex_run [] = 0
hex_run (c ∷ s) = let n = hex_run s in if is_hex c then suc n else 0

-- `n` groups are missing at the end of the text: an ellipsis stands for at least one of them.
abbrev fills : ℕ → Bool → Bool
fills n ellipsis = if n == 0 then not ellipsis else ellipsis

abbrev is_ipv4 : Bytes → Bool
is_ipv4 s = elim (parse_ipv4 s) [ none ↦ false | some b ↦ true ]

-- What may follow a group that begins at `s`, with `n` groups left; `continue` reads those.
after_group : ℕ → (Bool → Bytes → Bool) → Bool → Bytes → Bytes → Bool
after_group n continue ellipsis s [] = fills n ellipsis
after_group n continue ellipsis s (c ∷ []) = false
after_group n continue ellipsis s (c ∷ d ∷ r) =
    if c == b'.'
    then (ellipsis || (n == 1)) && ltb 0 n && is_ipv4 s && fills (n - 1) ellipsis
    else if not (c == b':')
    then false
    else if not (d == b':')
    then continue ellipsis (d ∷ r)
    else if ellipsis
    then false
    else if length r == 0
    then fills n true
    else continue true r

-- The text has `n` of eight groups left; `ellipsis` says whether `::` was read.
ipv6_groups : ℕ → Bool → Bytes → Bool
unfolding after_group
ipv6_groups zero ellipsis s = false
ipv6_groups (suc n) ellipsis s =
    let k = hex_run s in
    let rest = after_group n (λ e r. ipv6_groups n e r) ellipsis s (drop k s) in
    if (k == 0) || ltb 4 k then false else rest

is_ipv6 : Bytes → Bool
unfolding ipv6_groups
is_ipv6 (c ∷ d ∷ s) =
    if (c == b':') && (d == b':')
    then (if length s == 0 then true else ipv6_groups 8 true s)
    else ipv6_groups 8 false (c ∷ d ∷ s)
is_ipv6 s = ipv6_groups 8 false s

-- The first `.` or `:` tells which form is meant; a `%` before it is an error.
first_mark : Bytes → ℕ
first_mark [] = 0
first_mark (c ∷ s) =
    let rest = first_mark s in if (c == b'.') || (c == b':') || (c == b'%') then c else rest

-- Whether `net.ParseIP` returns an address.
unfoldable pub is_ip : Bytes → Bool
unfolding first_mark is_ipv6 hex_run
is_ip s =
    if first_mark s == b'.' then is_ipv4 s else if first_mark s == b':' then is_ipv6 s else false

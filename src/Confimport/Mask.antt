-- ===== src/Confimport/Mask.antt =====
-- A network and its mask as a CIDR (internal/confimport/parse.go). An address in IPv6 notation counts as
-- an error, which in the source differs for the mapped form `::ffff:a.b.c.d` only.
use openvpnd.Base.{
  ℕ, ◌+◌, Bool, true, ◌&&◌, Option, none, some, List, [], ◌∷◌, ◌++◌, ◌==◌, ◌>>=◌, if◌then◌else◌,
}
use openvpnd.Base.Text.{Bytes, codes, trim_space}
use openvpnd.Base.Strings.{quote}
use openvpnd.Base.Decimal.{format_uint}
use openvpnd.Net.{parse_ipv4, is_ip}
use openvpnd.Netutil.{number, network}
use openvpnd.Netutil.Convert.{format_ipv4}

-- A text, or the text of an error.
pub data Fallible : Type 0 where
  ok : Bytes → Fallible
  fail : Bytes → Fallible

-- The 1 bits of a byte that has no 1 behind a 0.
abbrev byte_ones : ℕ → Option ℕ
byte_ones b =
    if b == 0
    then some 0
    else if b == 0x80
    then some 1
    else if b == 0xC0
    then some 2
    else if b == 0xE0
    then some 3
    else if b == 0xF0
    then some 4
    else if b == 0xF8
    then some 5
    else if b == 0xFC
    then some 6
    else if b == 0xFE
    then some 7
    else none

abbrev all_zero : List ℕ → Bool
all_zero [] = true
all_zero (b ∷ bs) = (b == 0) && all_zero bs

-- `IPMask.Size`: the number of leading 1 bits, if all the others are 0.
unfoldable pub mask_size : List ℕ → Option ℕ
mask_size [] = some 0
mask_size (b ∷ bs) =
    let rest = mask_size bs in
    if b == 255 then (rest >>= λ n. some (n + 8)) else if all_zero bs then byte_ones b else none

abbrev cidr_of : ℕ → Bytes → Option ℕ → Fallible
cidr_of a text none = Fallible.fail (codes "invalid netmask " ++ quote text)
cidr_of a text (some ones) =
    Fallible.ok (format_ipv4 (network a ones) ++ codes "/" ++ format_uint ones)

-- Which error a text that is no IPv4 address gives.
abbrev no_ipv4 : Bytes → Bytes → Bytes → Fallible
no_ipv4 s invalid other =
    if is_ip (trim_space s) then Fallible.fail other else Fallible.fail invalid

-- `networkMaskToCIDR`.
unfoldable pub network_mask_to_cidr : Bytes → Bytes → Fallible
unfolding mask_size
network_mask_to_cidr net text = elim (parse_ipv4 (trim_space net)) [
  | none ↦
      no_ipv4 net (codes "invalid network IP " ++ quote net)
        (codes "only IPv4 server networks supported")
  | some bytes ↦ elim (parse_ipv4 (trim_space text)) [
    | none ↦
        no_ipv4 text (codes "invalid netmask " ++ quote text)
          (codes "invalid IPv4 netmask " ++ quote text)
    | some m ↦ cidr_of (number bytes) text (mask_size m)
  ]
]

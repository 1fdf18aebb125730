-- ===== src/Snmp/Ber.antt =====
-- BER (internal/snmp/ber.go): lengths, TLVs, integers, unsigned numbers and OID contents.
-- A reader is the list of the bytes that it has not read.
pub mod Tlv
pub mod Shrinks
pub mod Integer
pub mod Unsigned
pub mod Arcs
use mathlib.Core.List.{reverse}
use openvpnd.Base.{
  ℕ, zero, suc, ◌+◌, ◌-◌, ◌*◌, ◌/◌, ◌%◌, ◌^◌, Bool, true, false, not, ◌&&◌, ◌||◌, Option, none,
  some, List, [], ◌∷◌, ◌++◌, map, ◌==◌, ltb, leb, length, take, drop, if◌then◌else◌, ◌>>=◌,
}
use openvpnd.Base.Int.{ℤ, pos, negsuc, bits64, int64_of_bits}
use openvpnd.Base.Text.{Bytes}
use openvpnd.Snmp.Oid.{Oid}
use openvpnd.Snmp.Tag

-- `byte(n >> 16)` and the like; above three bytes the length is cut.
unfoldable pub encode_length : ℕ → Bytes
encode_length n =
    if ltb n 0x80
    then n % 256 ∷ []
    else if leb n 0xff
    then 0x81 ∷ n % 256 ∷ []
    else if leb n 0xffff
    then 0x82 ∷ n / 2 ^ 8 % 256 ∷ n % 256 ∷ []
    else 0x83 ∷ n / 2 ^ 16 % 256 ∷ n / 2 ^ 8 % 256 ∷ n % 256 ∷ []

unfoldable pub wrap_tlv : ℕ → Bytes → Bytes
wrap_tlv tag content = tag ∷ encode_length (length content) ++ content

-- `b & 0x80 != 0` of a byte
abbrev pub high_bit : ℕ → Bool
high_bit b = b / 128 % 2 == 1

-- `binary.BigEndian.PutUint64` and `PutUint32`
abbrev pub put_uint32 : ℕ → Bytes
put_uint32 v = v / 2 ^ 24 % 256 ∷ v / 2 ^ 16 % 256 ∷ v / 2 ^ 8 % 256 ∷ v % 256 ∷ []

abbrev pub put_uint64 : ℕ → Bytes
put_uint64 v =
    v / 2 ^ 56 % 256 ∷ v / 2 ^ 48 % 256 ∷ v / 2 ^ 40 % 256 ∷ v / 2 ^ 32 % 256 ∷ put_uint32 v

-- The loops that move `start`: the last byte always stays.
unfoldable pub skip_zeros : Bytes → Bytes
skip_zeros [] = []
skip_zeros (b ∷ []) = b ∷ []
skip_zeros (b ∷ c ∷ s) = let rest = skip_zeros (c ∷ s) in if b == 0 then rest else b ∷ c ∷ s

unfoldable pub skip_ones : Bytes → Bytes
skip_ones [] = []
skip_ones (b ∷ []) = b ∷ []
skip_ones (b ∷ c ∷ s) =
    let rest = skip_ones (c ∷ s) in if b == 0xff && high_bit c then rest else b ∷ c ∷ s

-- A content with its high bit set gets a zero byte in front.
unfoldable pub pad_high : Bytes → Bytes
pad_high [] = []
pad_high (b ∷ s) = if high_bit b then 0 ∷ b ∷ s else b ∷ s

unfoldable pub integer_content : ℤ → Bytes
unfolding skip_zeros skip_ones pad_high
integer_content (pos n) = pad_high (skip_zeros (put_uint64 (bits64 (pos n))))
integer_content (negsuc n) = skip_ones (put_uint64 (bits64 (negsuc n)))

unfoldable pub encode_integer : ℤ → Bytes
encode_integer v = wrap_tlv Tag.integer (integer_content v)

unfoldable pub encode_unsigned32 : ℕ → ℕ → Bytes
encode_unsigned32 tag v = wrap_tlv tag (pad_high (skip_zeros (put_uint32 v)))

unfoldable pub encode_counter64 : ℕ → Bytes
encode_counter64 v = wrap_tlv Tag.counter64 (pad_high (skip_zeros (put_uint64 v)))

-- The seven-bit groups of a number, the lowest first; the fuel is one more than the number.
groups : ℕ → ℕ → Bytes
groups zero n = []
groups (suc f) n = let rest = groups f (n / 128) in if n == 0 then [] else n % 128 ∷ rest

-- `b | 0x80` of a seven-bit group
set_high : ℕ → ℕ
set_high b = b + 128

-- The highest group first, and the high bit on all but the last.
reverse_groups : Bytes → Bytes
reverse_groups [] = []
reverse_groups (b ∷ s) = reverse (map set_high s) ++ b ∷ []

unfoldable pub encode_base128 : ℕ → Bytes
unfolding groups set_high reverse_groups
encode_base128 n = if ltb n 0x80 then n ∷ [] else reverse_groups (groups (suc n) n)

unfoldable pub encode_arcs : Oid → Bytes
encode_arcs [] = []
encode_arcs (n ∷ o) = encode_base128 n ++ encode_arcs o

-- `byte(oid[0]*40 + oid[1])`; an OID of fewer than two arcs is written as the byte 0.
unfoldable pub oid_content : Oid → Bytes
unfolding encode_arcs
oid_content [] = 0 ∷ []
oid_content (a ∷ []) = 0 ∷ []
oid_content (a ∷ b ∷ o) = (a * 40 + b) % 2 ^ 64 % 256 ∷ encode_arcs o

unfoldable pub encode_oid : Oid → Bytes
encode_oid o = wrap_tlv Tag.oid (oid_content o)

-- `n` rounds of `l = (l << 8) | int(bb)`; at most four of them.
unfoldable pub read_length_bytes : ℕ → ℕ → Bytes → Option (ℕ × Bytes)
read_length_bytes zero l s = some (l, s)
read_length_bytes (suc n) l [] = none
read_length_bytes (suc n) l (b ∷ s) = read_length_bytes n (l * 2 ^ 8 + b) s

unfoldable pub read_length : Bytes → Option (ℕ × Bytes)
unfolding read_length_bytes
read_length [] = none
read_length (b ∷ s) =
    let n = b % 128 in
    if ltb b 0x80 then some (b, s) else if n == 0 || ltb 4 n then none else read_length_bytes n 0 s

unfoldable pub cut_content : ℕ → ℕ → Bytes → Option (ℕ × Bytes × Bytes)
cut_content tag l s = if ltb (length s) l then none else some (tag, take l s, drop l s)

-- The tag, the content and what is left to read.
unfoldable pub read_tlv : Bytes → Option (ℕ × Bytes × Bytes)
unfolding cut_content
read_tlv [] = none
read_tlv (tag ∷ s) = elim (read_length s) [ none ↦ none | some (l, rest) ↦ cut_content tag l rest ]

-- `v = (v << 7) | uint(raw[i]&0x7f)`, and a new arc where the high bit is clear.
unfoldable pub decode_arcs : ℕ → Bytes → Oid
decode_arcs v [] = []
decode_arcs v (b ∷ s) =
    let v' = v * 2 ^ 7 % 2 ^ 64 + b % 128 in
    let closed = v' ∷ decode_arcs 0 s in
    let open_arc = decode_arcs v' s in if high_bit b then open_arc else closed

unfoldable pub decode_oid_content : Bytes → Option Oid
unfolding decode_arcs
decode_oid_content [] = none
decode_oid_content (b ∷ s) = some (b / 40 ∷ b % 40 ∷ decode_arcs 0 s)

-- `v = (v << 8) | b` on 64 bits
unfoldable pub shift_in : ℕ → Bytes → ℕ
shift_in w [] = w
shift_in w (b ∷ s) = shift_in (w * 2 ^ 8 % 2 ^ 64 + b) s

abbrev pub ones64 : ℕ
ones64 = 2 ^ 64 - 1

unfoldable pub decode_integer_content : Bytes → Option ℤ
unfolding shift_in
decode_integer_content [] = none
decode_integer_content (b ∷ s) =
    if ltb 8 (length (b ∷ s))
    then none
    else some (int64_of_bits (shift_in (if high_bit b then ones64 else 0) (b ∷ s)))

-- One leading zero is skipped where another byte follows.
unfoldable pub decode_unsigned_content : Bytes → Option ℕ
unfolding shift_in
decode_unsigned_content [] = none
decode_unsigned_content (b ∷ []) = some (shift_in 0 (b ∷ []))
decode_unsigned_content (b ∷ c ∷ s) =
    some (if b == 0 then shift_in 0 (c ∷ s) else shift_in 0 (b ∷ c ∷ s))

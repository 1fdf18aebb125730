-- ===== src/Snmp/Value.antt =====
-- Typed values (`Value`, `encodeValue`, `decodeValue` of internal/snmp/ber.go, and the
-- constructors of internal/snmp/mib.go).
pub mod RoundTrip
use openvpnd.Base.{
  ℕ, ◌%◌, ◌^◌, Bool, not, ◌||◌, Option, none, some, [], ◌∷◌, ◌==◌, length, if◌then◌else◌, ◌>>=◌,
}
use openvpnd.Base.Int.{ℤ, pos, negsuc, bits64, int64_of_bits, ltb_ℤ}
use openvpnd.Base.Text.{Bytes}
use openvpnd.Snmp.Tag
use openvpnd.Snmp.Oid.{parse_oid, oid_string}
use openvpnd.Snmp.Ber.{
  wrap_tlv, encode_integer, encode_unsigned32, encode_counter64, encode_oid, decode_oid_content,
  decode_integer_content, decode_unsigned_content,
}

pub record Value : Type 0 where
  pub vtype : ℕ
  pub int : ℤ
  pub u64 : ℕ
  pub str : Bytes
  pub raw : Bytes

abbrev pub zero_value : Value
zero_value = record { vtype = 0; int = pos 0; u64 = 0; str = []; raw = [] }

abbrev pub marker : ℕ → Value
marker tag = record zero_value { vtype = tag }

abbrev pub integer : ℤ → Value
integer n = record zero_value { vtype = Tag.integer; int = n }

abbrev pub octet : Bytes → Value
octet s = record zero_value { vtype = Tag.octet_string; str = s }

abbrev pub oid_value : Bytes → Value
oid_value s = record zero_value { vtype = Tag.oid; str = s }

abbrev pub counter64 : ℕ → Value
counter64 n = record zero_value { vtype = Tag.counter64; u64 = n; int = int64_of_bits n }

abbrev pub counter32 : ℕ → Value
counter32 n = record zero_value { vtype = Tag.counter32; int = pos n }

abbrev pub gauge32 : ℕ → Value
gauge32 n = record zero_value { vtype = Tag.gauge32; int = pos n }

abbrev pub time_ticks : ℤ → Value
time_ticks n = record zero_value { vtype = Tag.time_ticks; int = n }

abbrev pub ip_address : Bytes → Value
ip_address r = record zero_value { vtype = Tag.ip_address; raw = r }

-- `uint32(v.Int)`
abbrev pub low32 : ℤ → ℕ
low32 z = bits64 z % 2 ^ 32

abbrev is_zero : ℤ → Bool
is_zero (pos n) = n == 0
is_zero (negsuc n) = Bool.false

encode_counter : Value → Bytes
encode_counter v =
    if not (v.u64 == 0) || is_zero v.int
    then encode_counter64 v.u64
    else if ltb_ℤ v.int (pos 0)
    then encode_counter64 0
    else encode_counter64 (bits64 v.int)

unfoldable pub encode_value : Value → Bytes
unfolding encode_counter
encode_value v =
    if v.vtype == Tag.integer
    then encode_integer v.int
    else if v.vtype == Tag.octet_string
    then wrap_tlv Tag.octet_string v.str
    else if v.vtype == Tag.null
    then Tag.null ∷ 0 ∷ []
    else if v.vtype == Tag.oid
    then encode_oid (parse_oid v.str)
    else if v.vtype == Tag.counter32
    then encode_unsigned32 Tag.counter32 (low32 v.int)
    else if v.vtype == Tag.gauge32
    then encode_unsigned32 Tag.gauge32 (low32 v.int)
    else if v.vtype == Tag.time_ticks
    then encode_unsigned32 Tag.time_ticks (low32 v.int)
    else if v.vtype == Tag.counter64
    then encode_counter v
    else if v.vtype == Tag.ip_address
    then wrap_tlv Tag.ip_address (if length v.raw == 4 then v.raw else 0 ∷ 0 ∷ 0 ∷ 0 ∷ [])
    else if v.vtype == Tag.no_such_object
    then Tag.no_such_object ∷ 0 ∷ []
    else if v.vtype == Tag.no_such_instance
    then Tag.no_such_instance ∷ 0 ∷ []
    else if v.vtype == Tag.end_of_mib_view
    then Tag.end_of_mib_view ∷ 0 ∷ []
    else encode_integer v.int

-- A 32-bit unsigned value: `int64(u & math.MaxUint32)`.
decode_low32 : ℕ → Bytes → Option Value
decode_low32 tag c = do
  u ← decode_unsigned_content c
  some (record zero_value { vtype = tag; int = pos (u % 2 ^ 32) })

unfoldable pub decode_value : ℕ → Bytes → Option Value
unfolding decode_low32
decode_value tag c =
    if tag == Tag.integer
    then (do n ← decode_integer_content c; some (integer n))
    else if tag == Tag.octet_string
    then some (octet c)
    else if tag == Tag.null
    then some (marker Tag.null)
    else if tag == Tag.oid
    then (do o ← decode_oid_content c; some (oid_value (oid_string o)))
    else if tag == Tag.counter32
    then decode_low32 Tag.counter32 c
    else if tag == Tag.gauge32
    then decode_low32 Tag.gauge32 c
    else if tag == Tag.time_ticks
    then decode_low32 Tag.time_ticks c
    else if tag == Tag.counter64
    then (do u ← decode_unsigned_content c; some (counter64 u))
    else if tag == Tag.ip_address
    then some (ip_address c)
    else if tag == Tag.no_such_object
    then some (marker Tag.no_such_object)
    else if tag == Tag.no_such_instance
    then some (marker Tag.no_such_instance)
    else if tag == Tag.end_of_mib_view
    then some (marker Tag.end_of_mib_view)
    else some (record zero_value { vtype = tag; raw = c })

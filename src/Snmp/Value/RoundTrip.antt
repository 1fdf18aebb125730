-- ===== src/Snmp/Value/RoundTrip.antt =====
-- A value that the agent builds or has decoded is read back from its encoding.
use openvpnd.Base.{ℕ, ◌^◌, ◌<◌, ◌≡◌, refl, ap, some, [], ◌++◌, arith, length, ◌>>=◌}
use openvpnd.Base.Int.{ℤ, pos, IsInt64}
use openvpnd.Base.Text.{Bytes}
use openvpnd.Snmp.Tag
use openvpnd.Snmp.Oid.{Oid, oid_string}
use openvpnd.Snmp.Oid.Text.{IsOid32, parse_oid-oid_string}
use openvpnd.Snmp.Ber.{
  wrap_tlv, encode_length, encode_integer, encode_unsigned32, encode_counter64, encode_oid,
  oid_content, read_tlv, integer_content, pad_high, skip_zeros, put_uint32, put_uint64,
  decode_unsigned_content,
}
use openvpnd.Snmp.Ber.Tlv.{read_tlv-wrap_tlv, length-wrap_tlv}
use openvpnd.Snmp.Ber.Integer.{decode_integer_content-integer_content}
use openvpnd.Snmp.Ber.Unsigned.{decode_unsigned32, decode_unsigned64}
use openvpnd.Snmp.Ber.Arcs.{IsEncodable, decode_oid_content-oid_content}
use openvpnd.Snmp.Value.{
  Value, marker, integer, octet, oid_value, counter32, counter64, gauge32, time_ticks, ip_address,
  low32, encode_value, decode_value,
}

pub data IsCanonical : Value → Type 0 where
  of_integer : (n : ℤ) → IsInt64 n → IsCanonical (integer n)
  of_octet : (s : Bytes) → IsCanonical (octet s)
  of_oid : (o : Oid) → IsOid32 o → IsEncodable o → IsCanonical (oid_value (oid_string o))
  of_counter32 : (n : ℕ) → n < 2 ^ 32 → IsCanonical (counter32 n)
  of_gauge32 : (n : ℕ) → n < 2 ^ 32 → IsCanonical (gauge32 n)
  of_time_ticks : (n : ℕ) → n < 2 ^ 32 → IsCanonical (time_ticks (pos n))
  of_counter64 : (n : ℕ) → n < 2 ^ 64 → IsCanonical (counter64 n)
  of_ip_address : (r : Bytes) → length r ≡ 4 → IsCanonical (ip_address r)
  of_null : IsCanonical (marker Tag.null)
  of_no_such_object : IsCanonical (marker Tag.no_such_object)
  of_no_such_instance : IsCanonical (marker Tag.no_such_instance)
  of_end_of_mib_view : IsCanonical (marker Tag.end_of_mib_view)

-- The content between the encoding and the decoding.
pub record Carries (v : Value) (rest : Bytes) : Type 0 where
  pub content : Bytes
  pub read : read_tlv (encode_value v ++ rest) ≡ some (v.vtype, content, rest)
  pub decoded : decode_value v.vtype content ≡ some v

-- A value whose encoding is one TLV with a content that decodes to it.
Carries-tlv :
    (v : Value) (rest c : Bytes)
    → encode_value v ≡ wrap_tlv v.vtype c
    → decode_value v.vtype c ≡ some v
    → length (encode_value v) < 2 ^ 24
    → Carries v rest
Carries-tlv v rest c e d k = record {
  content = c;
  read = rw e (
      read_tlv-wrap_tlv v.vtype c rest
        (omega (arith, length-wrap_tlv v.vtype c, ap (λ s. length s) e)));
  decoded = d;
}

unsigned_content : ℕ → Bytes
unsigned_content n = pad_high (skip_zeros (put_uint32 n))

-- The three 32-bit unsigned types.
module _ (n : ℕ) (h : n < 2 ^ 32) where
  low32_fits : low32 (pos n) ≡ n
  low32_fits = omega arith

  decode_unsigned :
      decode_unsigned_content (pad_high (skip_zeros (put_uint32 (low32 (pos n))))) ≡ some n
  decode_unsigned = rw low32_fits (decode_unsigned32 n h)

  decode_counter32 :
      decode_value Tag.counter32 (unsigned_content (low32 (pos n))) ≡ some (counter32 n)
  unfolding decode_value unsigned_content
  decode_counter32 = rw (decode_unsigned, ◌>>=◌) (ground arith)

  decode_gauge32 : decode_value Tag.gauge32 (unsigned_content (low32 (pos n))) ≡ some (gauge32 n)
  unfolding decode_value unsigned_content
  decode_gauge32 = rw (decode_unsigned, ◌>>=◌) (ground arith)

  decode_time_ticks :
      decode_value Tag.time_ticks (unsigned_content (low32 (pos n))) ≡ some (time_ticks (pos n))
  unfolding decode_value unsigned_content
  decode_time_ticks = rw (decode_unsigned, ◌>>=◌) (ground arith)

encode_counter64-eq : (n : ℕ) → encode_value (counter64 n) ≡ encode_counter64 n
unfolding encode_value
encode_counter64-eq n = ground arith

encode_ip_address-eq :
    (r : Bytes) → length r ≡ 4 → encode_value (ip_address r) ≡ wrap_tlv Tag.ip_address r
unfolding encode_value
encode_ip_address-eq r e = rw e

-- A canonical value is read as its tag and a content that decodes to the value, whatever follows,
-- when its encoding is below 2^24 bytes.
pub encode_value-Carries :
    {v : Value} (rest : Bytes) → IsCanonical v → length (encode_value v) < 2 ^ 24 → Carries v rest
unfolding encode_integer encode_oid encode_unsigned32 encode_counter64 unsigned_content
encode_value-Carries rest (of_integer n h) k =
    Carries-tlv (integer n) rest (integer_content n) (unfold encode_value in refl)
      (unfold decode_value in rw (decode_integer_content-integer_content n h, ◌>>=◌)) k
encode_value-Carries rest (of_octet s) k =
    Carries-tlv (octet s) rest s (unfold encode_value in refl) (unfold decode_value in refl) k
encode_value-Carries rest (of_oid o h e) k =
    Carries-tlv (oid_value (oid_string o)) rest (oid_content o)
      (unfold encode_value in rw (parse_oid-oid_string o h))
      (unfold decode_value in rw (decode_oid_content-oid_content o e, ◌>>=◌)) k
encode_value-Carries rest (of_counter32 n h) k =
    Carries-tlv (counter32 n) rest (unsigned_content (low32 (pos n))) (unfold encode_value in refl)
      (decode_counter32 n h) k
encode_value-Carries rest (of_gauge32 n h) k =
    Carries-tlv (gauge32 n) rest (unsigned_content (low32 (pos n))) (unfold encode_value in refl)
      (decode_gauge32 n h) k
encode_value-Carries rest (of_time_ticks n h) k =
    Carries-tlv (time_ticks (pos n)) rest (unsigned_content (low32 (pos n)))
      (unfold encode_value in refl) (decode_time_ticks n h) k
encode_value-Carries rest (of_counter64 n h) k =
    Carries-tlv (counter64 n) rest (pad_high (skip_zeros (put_uint64 n))) (encode_counter64-eq n)
      (unfold decode_value in rw (decode_unsigned64 n h, ◌>>=◌)) k
encode_value-Carries rest (of_ip_address r e) k =
    Carries-tlv (ip_address r) rest r (encode_ip_address-eq r e) (unfold decode_value in refl) k
encode_value-Carries rest of_null k =
    Carries-tlv (marker Tag.null) rest [] (unfold encode_value wrap_tlv encode_length in refl)
      (unfold decode_value in refl) k
encode_value-Carries rest of_no_such_object k =
    Carries-tlv (marker Tag.no_such_object) rest []
      (unfold encode_value wrap_tlv encode_length in refl) (unfold decode_value in refl) k
encode_value-Carries rest of_no_such_instance k =
    Carries-tlv (marker Tag.no_such_instance) rest []
      (unfold encode_value wrap_tlv encode_length in refl) (unfold decode_value in refl) k
encode_value-Carries rest of_end_of_mib_view k =
    Carries-tlv (marker Tag.end_of_mib_view) rest []
      (unfold encode_value wrap_tlv encode_length in refl) (unfold decode_value in refl) k

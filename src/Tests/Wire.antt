-- ===== src/Tests/Wire.antt =====
-- Concrete encodings.
use openvpnd.Base.{◌^◌, ◌<◌, ◌≡◌, inl, refl, true, some, [], ◌∷◌, arith, length}
use openvpnd.Base.Int.{pos, negsuc}
use openvpnd.Base.Text.{Bytes, codes}
use openvpnd.Snmp.Tag
use openvpnd.Snmp.Oid.{Oid, parse_oid, oid_string, compare}
use openvpnd.Snmp.Oid.Text.{parse_oid-oid_string}
use openvpnd.Snmp.Oid.Order.{Compared, compare-Compared}
use openvpnd.Snmp.Ber.{
  wrap_tlv, integer_content, decode_integer_content, oid_content, decode_oid_content, encode_oid,
  encode_integer, encode_arcs, encode_base128, encode_length, encode_counter64, pad_high,
  skip_zeros,
}
use openvpnd.Snmp.Ber.Integer.{decode_integer_content-integer_content}
use openvpnd.Snmp.Ber.Arcs.{decode_oid_content-oid_content}
use openvpnd.Snmp.Value.{marker, counter64, encode_value}
use openvpnd.Snmp.Value.RoundTrip.{Carries, of_counter64, of_null, encode_value-Carries}
use openvpnd.Snmp.Pdu.{
  Message, decode_message, encode_message, encode_pdu, encode_bindings, encode_var_bind,
}
use openvpnd.Snmp.Pdu.Fuel.{HasEnded, read_bindings-HasEnded}
use openvpnd.Snmp.Pdu.RoundTrip.{decode_message-encode_message}
use openvpnd.Snmp.Pdu.Decoded.{IsBytes, IsDecoded, decode_message-IsDecoded}

abbrev sample_oid : Oid
sample_oid = 1 ∷ 3 ∷ 6 ∷ 1 ∷ 4 ∷ 1 ∷ 66666 ∷ []

parse_oid-oid_string_example : parse_oid (oid_string sample_oid) ≡ sample_oid
parse_oid-oid_string_example = parse_oid-oid_string sample_oid (omega arith)

compare-Compared_example : Compared sample_oid (1 ∷ 3 ∷ []) (compare sample_oid (1 ∷ 3 ∷ []))
compare-Compared_example = compare-Compared sample_oid (1 ∷ 3 ∷ [])

decode_integer_content-integer_content_example :
    decode_integer_content (integer_content (negsuc 299)) ≡ some (negsuc 299)
decode_integer_content-integer_content_example =
    decode_integer_content-integer_content (negsuc 299) (omega arith)

decode_oid_content-oid_content_example :
    decode_oid_content (oid_content sample_oid) ≡ some sample_oid
decode_oid_content-oid_content_example = decode_oid_content-oid_content sample_oid (omega arith)

short_counter : length (encode_value (counter64 (2 ^ 63))) < 2 ^ 24
unfolding encode_value encode_counter64 wrap_tlv encode_length pad_high skip_zeros
short_counter = omega arith

encode_value-Carries_example : Carries (counter64 (2 ^ 63)) (7 ∷ [])
encode_value-Carries_example =
    encode_value-Carries (7 ∷ []) (of_counter64 (2 ^ 63) (omega arith)) short_counter

-- Two bindings' worth of bytes, of which the second is cut off.
-- A list with one binding, of 1.3.6 to NULL.
abbrev binding_list : Bytes
binding_list = 0x30 ∷ 0x06 ∷ 0x06 ∷ 0x02 ∷ 0x2b ∷ 0x06 ∷ 0x05 ∷ 0x00 ∷ []

read_bindings-HasEnded_example : HasEnded binding_list 8
read_bindings-HasEnded_example = read_bindings-HasEnded 8 binding_list (omega arith)

abbrev sample_message : Message
sample_message = record {
  version = pos 1;
  community = codes "public";
  pdu = record {
    ptype = Tag.get_bulk_request;
    request_id = negsuc 41;
    error_status = pos 0;
    error_index = pos 0;
    non_repeaters = pos 1;
    max_repetitions = pos 20;
    is_bulk = true;
    bindings = record { name = sample_oid; value = marker Tag.null } ∷ [];
  };
}

sample_message_short : length (encode_message sample_message) < 2 ^ 24
unfolding encode_message encode_pdu encode_bindings encode_var_bind encode_oid encode_value
    encode_integer oid_content encode_arcs encode_base128 wrap_tlv encode_length integer_content
sample_message_short = omega arith

decode_message-encode_message_example :
    decode_message (encode_message sample_message) ≡ some sample_message
decode_message-encode_message_example =
    decode_message-encode_message sample_message (omega arith)
      (record {
        typed = omega arith;
        request = omega arith;
        shape = inl (refl, refl, refl, refl, omega arith, omega arith);
        sendable = (record { encodable = omega arith; canonical = of_null }, tt);
      })
      sample_message_short

sample_packet-IsBytes : IsBytes (encode_message sample_message)
unfolding encode_message encode_pdu encode_bindings encode_var_bind encode_oid encode_value
    encode_integer oid_content encode_arcs encode_base128 wrap_tlv encode_length integer_content
sample_packet-IsBytes = omega arith

decode_message-IsDecoded_example : IsDecoded sample_message.pdu
decode_message-IsDecoded_example =
    decode_message-IsDecoded (encode_message sample_message) sample_message sample_packet-IsBytes
      decode_message-encode_message_example

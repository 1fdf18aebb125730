-- ===== src/Tests/Agents.antt =====
-- A small agent and a Get request for its host name.
use mathlib.Core.List.{Perm}
use openvpnd.Base.{
  ◌*◌, ◌≢◌, true, false, ◌≤◌, ◌≡◌, inl, refl, some, [], ◌∷◌, List, arith, length, All, suc,
}
use openvpnd.Base.Int.{pos}
use openvpnd.Base.Text.{Bytes, codes, bytes_eq}
use openvpnd.Stats.Cache.{new_cache}
use openvpnd.Snmp.Tag
use openvpnd.Snmp.Oid.{Oid, compare, child, equal, oid_string}
use openvpnd.Snmp.Ber.{
  read_tlv, read_length, decode_integer_content, decode_oid_content, encode_oid, encode_integer,
  oid_content, encode_arcs, encode_base128, wrap_tlv, encode_length, integer_content,
}
use openvpnd.Snmp.Value.{marker, decode_value, encode_value}
use openvpnd.Snmp.Value.RoundTrip.{of_integer, of_octet, of_oid, of_time_ticks}
use openvpnd.Snmp.Pdu.{
  Pdu, Message, VarBind, decode_message, decode_pdu, decode_bindings, read_bindings, read_binding,
  decode_var_bind, encode_message, encode_pdu, encode_bindings, encode_var_bind,
}
use openvpnd.Snmp.Mib.{
  Mib, Variable, default_base, build_mib, get, search, search_loop, reaches, sort_variables, leaves,
  insert_variable, sort_entries,
}
use openvpnd.Snmp.Mib.Search.{IsSorted}
use openvpnd.Snmp.Mib.Sorting.{build_mib-IsSorted}
use openvpnd.Snmp.Mib.Walk.{IsStrict, walk, walk_complete}
use openvpnd.Snmp.Agent.{
  Agent, handle_packet, respond, answer, cap_response, do_get, do_get_next, do_get_bulk,
}
use openvpnd.Snmp.Agent.Bounds.{length-do_get_bulk}
use openvpnd.Snmp.Agent.Replies.{
  Answers, GetAnswer, NextAnswer, do_get-Answers, do_get_next-Answers,
}
use openvpnd.Snmp.Agent.Sendable.{IsSendableMib}
use openvpnd.Snmp.Agent.Packet.{IsAccepted, reply_to, handle_packet_accepts, length-handle_packet}
use openvpnd.Snmp.Agent.Readable.{IsReadAs, handle_packet_readable}

abbrev base : Oid
base = 1 ∷ 3 ∷ 6 ∷ 1 ∷ 4 ∷ 1 ∷ 66666 ∷ 1 ∷ []

abbrev sample_agent : Agent
sample_agent = record {
  listen = codes "127.0.0.1:1161";
  community = codes "public";
  base_oid = base;
  cache = new_cache;
  host = codes "vpn";
  uptime = pos 500;
  read_only = true;
}

abbrev sample_mib : Mib
sample_mib = build_mib base new_cache (codes "vpn") (pos 500)

abbrev sys_name : Oid
sys_name = 1 ∷ 3 ∷ 6 ∷ 1 ∷ 2 ∷ 1 ∷ 1 ∷ 5 ∷ 0 ∷ []

-- Version 2c, community `public`, Get of sysName.
abbrev get_packet : Bytes
get_packet =
    0x30 ∷ 0x26 ∷ 0x02 ∷ 0x01 ∷ 0x01 ∷ 0x04 ∷ 0x06 ∷ 0x70 ∷ 0x75 ∷ 0x62 ∷ 0x6c ∷ 0x69 ∷ 0x63 ∷ 0xa0
    ∷ 0x19 ∷ 0x02 ∷ 0x01 ∷ 0x07 ∷ 0x02 ∷ 0x01 ∷ 0x00 ∷ 0x02 ∷ 0x01 ∷ 0x00 ∷ 0x30 ∷ 0x0e ∷ 0x30
    ∷ 0x0c ∷ 0x06 ∷ 0x08 ∷ 0x2b ∷ 0x06 ∷ 0x01 ∷ 0x02 ∷ 0x01 ∷ 0x01 ∷ 0x05 ∷ 0x00 ∷ 0x05 ∷ 0x00 ∷ []

abbrev get_bindings : List VarBind
get_bindings = record { name = sys_name; value = marker Tag.null } ∷ []

abbrev get_message : Message
get_message = record {
  version = pos 1;
  community = codes "public";
  pdu = record {
    ptype = Tag.get_request;
    request_id = pos 7;
    error_status = pos 0;
    error_index = pos 0;
    non_repeaters = pos 0;
    max_repetitions = pos 0;
    is_bulk = false;
    bindings = get_bindings;
  };
}

get_packet_decodes : decode_message get_packet ≡ some get_message
unfolding decode_message read_tlv read_length decode_integer_content decode_pdu decode_bindings
    read_bindings read_binding decode_var_bind decode_oid_content decode_value
get_packet_decodes = refl

-- What the agent sends back.
abbrev get_reply : Bytes
get_reply =
    0x30 ∷ 0x29 ∷ 0x02 ∷ 0x01 ∷ 0x01 ∷ 0x04 ∷ 0x06 ∷ 0x70 ∷ 0x75 ∷ 0x62 ∷ 0x6c ∷ 0x69 ∷ 0x63 ∷ 0xa2
    ∷ 0x1c ∷ 0x02 ∷ 0x01 ∷ 0x07 ∷ 0x02 ∷ 0x01 ∷ 0x00 ∷ 0x02 ∷ 0x01 ∷ 0x00 ∷ 0x30 ∷ 0x11 ∷ 0x30
    ∷ 0x0f ∷ 0x06 ∷ 0x08 ∷ 0x2b ∷ 0x06 ∷ 0x01 ∷ 0x02 ∷ 0x01 ∷ 0x01 ∷ 0x05 ∷ 0x00 ∷ 0x04 ∷ 0x03
    ∷ 0x76 ∷ 0x70 ∷ 0x6e ∷ []

get_packet_answered : handle_packet sample_agent get_packet ≡ some get_reply
unfolding handle_packet decode_message read_tlv read_length decode_integer_content decode_pdu
    decode_bindings read_bindings read_binding decode_var_bind decode_oid_content decode_value
    respond answer do_get cap_response encode_message encode_pdu encode_bindings encode_var_bind
    encode_value encode_oid encode_integer oid_content encode_arcs encode_base128 wrap_tlv
    encode_length integer_content build_mib get search search_loop reaches compare bytes_eq
    sort_variables leaves insert_variable sort_entries child equal
get_packet_answered = refl

sample_mib-IsSendable : IsSendableMib sample_mib
unfolding build_mib sort_variables leaves insert_variable sort_entries child compare oid_string
sample_mib-IsSendable = (
  record { encodable = omega arith; canonical = of_octet _ },
  (
    record { encodable = omega arith; canonical = of_oid base (omega arith) (omega arith) },
    (
      record { encodable = omega arith; canonical = of_time_ticks 500 (omega arith) },
      (
        record { encodable = omega arith; canonical = of_octet _ },
        (
          record { encodable = omega arith; canonical = of_octet _ },
          (
            record { encodable = omega arith; canonical = of_octet _ },
            (
              record { encodable = omega arith; canonical = of_integer (pos 72) (omega arith) },
              (
                record { encodable = omega arith; canonical = of_integer (pos 0) (omega arith) },
                (
                  record { encodable = omega arith; canonical = of_integer (pos 0) (omega arith) },
                  (
                    record { encodable = omega arith; canonical = of_time_ticks 500 (omega arith) },
                    tt,
                  ),
                ),
              ),
            ),
          ),
        ),
      ),
    ),
  ),
)

handle_packet_readable_example : IsReadAs sample_agent get_message get_reply
handle_packet_readable_example =
    handle_packet_readable sample_agent get_packet (omega arith) get_packet_decodes
      get_packet_answered (inl refl) sample_mib-IsSendable (omega arith)

handle_packet_accepts_example :
    ((out : Bytes)
      → handle_packet sample_agent get_packet ≡ some out
      → (msg : Message) × (decode_message get_packet ≡ some msg)
        × IsAccepted sample_agent msg
        × (out ≡ cap_response (reply_to sample_agent msg)))
    × ((msg : Message)
        → decode_message get_packet ≡ some msg
        → IsAccepted sample_agent msg
        → handle_packet sample_agent get_packet ≡ some (cap_response (reply_to sample_agent msg)))
handle_packet_accepts_example = handle_packet_accepts sample_agent get_packet

length-handle_packet_example : length get_reply ≤ 64000
length-handle_packet_example =
    length-handle_packet sample_agent get_packet (omega arith) get_packet_answered

sample_mib-IsSorted : IsSorted sample_mib
sample_mib-IsSorted = (build_mib-IsSorted base new_cache (codes "vpn") (pos 500)).0

build_mib-IsSorted_example :
    IsSorted sample_mib
    × Perm sample_mib (leaves (default_base base) new_cache (codes "vpn") (pos 500))
build_mib-IsSorted_example = build_mib-IsSorted base new_cache (codes "vpn") (pos 500)

sample_mib-IsStrict : IsStrict sample_mib × All (λ (w : Variable). w.oid ≢ []) sample_mib
unfolding build_mib sort_variables leaves insert_variable sort_entries child compare oid_string
sample_mib-IsStrict = ground arith

walk_complete_example : walk (suc (length sample_mib)) sample_mib [] ≡ sample_mib
walk_complete_example = walk_complete sample_mib sample_mib-IsStrict.0 sample_mib-IsStrict.1

do_get-Answers_example :
    Answers (GetAnswer sample_mib) get_bindings (do_get sample_mib get_bindings)
do_get-Answers_example = do_get-Answers sample_mib get_bindings sample_mib-IsSorted

do_get_next-Answers_example :
    Answers (NextAnswer sample_mib) get_bindings (do_get_next sample_mib get_bindings)
do_get_next-Answers_example = do_get_next-Answers sample_mib get_bindings sample_mib-IsSorted

-- A GetBulk request for many rounds.
abbrev bulk_pdu : Pdu
bulk_pdu = record get_message.pdu {
  ptype = Tag.get_bulk_request;
  is_bulk = true;
  max_repetitions = pos 100000;
}

length-do_get_bulk_example :
    length (do_get_bulk sample_mib bulk_pdu) ≤ 100 * length bulk_pdu.bindings
length-do_get_bulk_example = length-do_get_bulk sample_mib bulk_pdu

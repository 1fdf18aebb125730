-- ===== src/Snmp/Agent/Packet.antt =====
-- Whole packets: which are answered, how long an answer is, and that a manager can read it.
use openvpnd.Base.{
  ◌+◌, ◌≤◌, ◌≡◌, ◌⊎◌, inl, inr, refl, sym, true, some, [], ◌++◌, arith, length, length-append, ltb,
  Bool-cases, Option-cases, some_inj,
}
use openvpnd.Base.Int.{ℤ, pos, negsuc}
use openvpnd.Base.Text.{Bytes, bytes_eq, bytes_eq_iff}
use openvpnd.Snmp.Tag
use openvpnd.Snmp.Ber.{encode_integer, wrap_tlv, integer_content}
use openvpnd.Snmp.Ber.Tlv.{length-wrap_tlv}
use openvpnd.Snmp.Ber.Integer.{length-integer_content}
use openvpnd.Snmp.Pdu.{
  Pdu, Message, decode_message, encode_message, encode_pdu, encode_bindings, pdu_tag, first_integer,
  second_integer,
}
use openvpnd.Snmp.Mib.{build_mib}
use openvpnd.Snmp.Agent.{
  Agent, answer, cap_response, known_version, respond, handle_packet, err_too_big,
}

-- The message that answers an accepted one, before the cap on its length.
abbrev pub reply_to : Agent → Message → Message
reply_to a msg = record {
  version = msg.version;
  community = a.community;
  pdu = answer (build_mib a.base_oid a.cache a.host a.uptime) msg.pdu;
}

-- Version 1 or 2c, and the agent's community.
abbrev pub IsAccepted : Agent → Message → Type 0
IsAccepted a msg = ((msg.version ≡ pos 0) ⊎ (msg.version ≡ pos 1)) × (msg.community ≡ a.community)

known_version_sound : (v : ℤ) → known_version v ≡ true → (v ≡ pos 0) ⊎ (v ≡ pos 1)
unfolding known_version
known_version_sound (pos n) h = ground arith
known_version_sound (negsuc n) h = cc

known_version_complete : (v : ℤ) → (v ≡ pos 0) ⊎ (v ≡ pos 1) → known_version v ≡ true
known_version_complete v (inl e) = unfold known_version in rw e
known_version_complete v (inr e) = unfold known_version in rw e

respond_sound :
    (a : Agent) (msg : Message) {out : Bytes}
    → respond a msg ≡ some out
    → IsAccepted a msg × (out ≡ cap_response (reply_to a msg))
unfolding respond
respond_sound a msg {out} h = elim (Bool-cases (known_version msg.version)) [
  | inr e ↦ absurd (cc (rw e at h))
  | inl e ↦ elim (Bool-cases (bytes_eq msg.community a.community)) [
    | inr f ↦ absurd (cc (rw (e, f) at h))
    | inl f ↦ (
      (known_version_sound msg.version e, (bytes_eq_iff msg.community a.community).0 f),
      sym (some_inj (rw (e, f) at h)),
    )
  ]
]

respond_complete :
    (a : Agent) (msg : Message)
    → IsAccepted a msg
    → respond a msg ≡ some (cap_response (reply_to a msg))
unfolding respond
respond_complete a msg h =
    rw (known_version_complete msg.version h.0, (bytes_eq_iff msg.community a.community).1 h.1)

-- A packet is answered exactly when it decodes to a message of version 1 or 2c with the agent's
-- community, and the answer is the capped reply to that message.
pub handle_packet_accepts :
    (a : Agent) (req : Bytes)
    → ((out : Bytes)
        → handle_packet a req ≡ some out
        → (msg : Message) × (decode_message req ≡ some msg)
          × IsAccepted a msg
          × (out ≡ cap_response (reply_to a msg)))
      × ((msg : Message)
          → decode_message req ≡ some msg
          → IsAccepted a msg
          → handle_packet a req ≡ some (cap_response (reply_to a msg)))
unfolding handle_packet
handle_packet_accepts a req = (
  λ out h. elim (Option-cases (decode_message req)) [
    | inl e ↦ absurd (cc (rw (e, handle_packet) at h))
    | inr (msg, e) ↦
        let (accepted, same) = respond_sound a msg (rw (e, handle_packet) at h) in
        (msg, e, accepted, same)
  ],
  λ msg e k. rw (e, handle_packet) (respond_complete a msg k),
)

length-encode_integer : (v : ℤ) → length (encode_integer v) ≤ 14
unfolding encode_integer
length-encode_integer v =
    omega (arith, length-wrap_tlv Tag.integer (integer_content v), length-integer_content v)

-- The message that replaces one that is too long.
abbrev pub shorten : Pdu → Pdu
shorten p = record p { error_status = err_too_big; error_index = pos 0; bindings = [] }

abbrev pub too_big : Message → Message
too_big msg = record msg { pdu = shorten msg.pdu }

length-encode_pdu : (p : Pdu) → p.bindings ≡ [] → length (encode_pdu p) ≤ 60
unfolding encode_pdu encode_bindings
length-encode_pdu p e =
    let list = wrap_tlv Tag.sequence (encode_bindings p.bindings) in
    let i1 = encode_integer p.request_id in
    let i2 = encode_integer (first_integer p) in
    let i3 = encode_integer (second_integer p) in
    let none_bound : length (encode_bindings p.bindings) ≤ 0 = rw e (omega arith) in
    omega (
      arith,
      length-wrap_tlv (pdu_tag p.ptype) (i1 ++ (i2 ++ (i3 ++ list))),
      length-append i1 (i2 ++ (i3 ++ list)),
      length-append i2 (i3 ++ list),
      length-append i3 list,
      length-wrap_tlv Tag.sequence (encode_bindings p.bindings),
      length-encode_integer p.request_id,
      length-encode_integer (first_integer p),
      length-encode_integer (second_integer p),
    )

pub length-too_big :
    (msg : Message) → length (encode_message (too_big msg)) ≤ length msg.community + 100
unfolding encode_message
length-too_big msg =
    let p = (too_big msg).pdu in
    let body = wrap_tlv Tag.octet_string msg.community ++ encode_pdu p in
    omega (
      arith,
      length-wrap_tlv Tag.sequence (encode_integer msg.version ++ body),
      length-append (encode_integer msg.version) body,
      length-append (wrap_tlv Tag.octet_string msg.community) (encode_pdu p),
      length-wrap_tlv Tag.octet_string msg.community,
      length-encode_integer msg.version,
      length-encode_pdu p refl,
    )

-- What a capped response is: the whole message, or the one that says tooBig.
pub cap_cases :
    (msg : Message)
    → ((cap_response msg ≡ encode_message msg) × (length (encode_message msg) ≤ 64000))
      ⊎ (cap_response msg ≡ encode_message (too_big msg))
unfolding cap_response
cap_cases msg = elim (Bool-cases (ltb 64000 (length (encode_message msg)))) [
  | inl e ↦ inr (rw e)
  | inr e ↦ inl (rw e, ground arith)
]

-- With a community of at most 60000 bytes no response is above 64000 bytes.
pub length-handle_packet :
    (a : Agent) (req : Bytes) {out : Bytes}
    → length a.community ≤ 60000
    → handle_packet a req ≡ some out
    → length out ≤ 64000
length-handle_packet a req {out} c h =
    let (msg, decoded, accepted, same) = (handle_packet_accepts a req).0 out h in
    elim (cap_cases (reply_to a msg)) [
      | inl whole ↦ rw (same, whole.0) (whole.1)
      | inr short ↦ rw (same, short) (omega (arith, length-too_big (reply_to a msg)))
    ]

-- ===== src/Snmp/Agent/Readable.antt =====
-- A manager can read every response to a read request.
use openvpnd.Base.{
  ◌≤◌, ◌≡◌, ◌⊎◌, inl, inr, refl, sym, ap, some, List, arith, All, length, some_inj, ◌∙◌,
}
use mathlib.Core.Path.{subst}
use openvpnd.Base.Int.{ℤ, pos, IsInt64}
use openvpnd.Base.Text.{Bytes}
use openvpnd.Snmp.Tag
use openvpnd.Snmp.Pdu.{VarBind, Pdu, Message, decode_message}
use openvpnd.Snmp.Pdu.RoundTrip.{
  IsSendable, HasShape, IsWirePdu, IsInt32, decode_message-encode_message,
}
use openvpnd.Snmp.Pdu.Decoded.{IsBytes, IsDecoded, decode_message-IsDecoded}
use openvpnd.Snmp.Mib.{Mib, build_mib}
use openvpnd.Snmp.Mib.Search.{IsSorted}
use openvpnd.Snmp.Mib.Sorting.{build_mib-IsSorted}
use openvpnd.Snmp.Agent.{
  Agent, do_get, do_get_next, do_get_bulk, response, answer, cap_response, handle_packet,
}
use openvpnd.Snmp.Agent.Sendable.{
  IsSendableMib, do_get-IsSendable, do_get_next-IsSendable, do_get_bulk-IsSendable,
}
use openvpnd.Snmp.Agent.Packet.{
  reply_to, IsAccepted, handle_packet_accepts, cap_cases, too_big, shorten, length-too_big,
}

-- Get, GetNext and GetBulk.
abbrev pub IsRead : Pdu → Type 0
IsRead p =
    (p.ptype ≡ Tag.get_request)
    ⊎ ((p.ptype ≡ Tag.get_next_request) ⊎ (p.ptype ≡ Tag.get_bulk_request))

-- A response with bindings that can be sent can be sent.
response-IsWirePdu :
    (id es : ℤ) (bs : List VarBind)
    → IsInt32 id
    → IsInt64 es
    → All IsSendable bs
    → IsWirePdu (record (response id bs) { error_status = es })
response-IsWirePdu id es bs i e s = record {
  typed = omega arith;
  request = i;
  shape = inr (omega arith, refl, refl, refl, e, omega arith);
  sendable = s;
}

answer-get :
    (m : Mib) (p : Pdu)
    → p.ptype ≡ Tag.get_request
    → answer m p ≡ response p.request_id (do_get m p.bindings)
unfolding answer
answer-get m p e = ground arith

answer-get_next :
    (m : Mib) (p : Pdu)
    → p.ptype ≡ Tag.get_next_request
    → answer m p ≡ response p.request_id (do_get_next m p.bindings)
unfolding answer
answer-get_next m p e = ground arith

answer-get_bulk :
    (m : Mib) (p : Pdu)
    → p.ptype ≡ Tag.get_bulk_request
    → answer m p ≡ response p.request_id (do_get_bulk m p)
unfolding answer
answer-get_bulk m p e = ground arith

-- A PDU that can be sent, with the request's id and the type of a response.
abbrev IsReplyTo : Pdu → Pdu → Type 0
IsReplyTo p q = IsWirePdu q × (q.request_id ≡ p.request_id) × (q.ptype ≡ Tag.get_response)

answer-IsReplyTo :
    (m : Mib) (p : Pdu)
    → IsSorted m
    → IsSendableMib m
    → IsDecoded p
    → IsRead p
    → IsReplyTo p (answer m p)
answer-IsReplyTo m p s w d (inl e) =
    let sent = do_get-IsSendable m s w p.bindings d.1 in
    rw (answer-get m p e) (
      response-IsWirePdu p.request_id (pos 0) (do_get m p.bindings) d.0 (omega arith) sent,
      refl,
      refl,
    )
answer-IsReplyTo m p s w d (inr (inl e)) =
    let sent = do_get_next-IsSendable m s w p.bindings d.1 in
    rw (answer-get_next m p e) (
      response-IsWirePdu p.request_id (pos 0) (do_get_next m p.bindings) d.0 (omega arith) sent,
      refl,
      refl,
    )
answer-IsReplyTo m p s w d (inr (inr e)) =
    let sent = do_get_bulk-IsSendable m s w p d.1 in
    rw (answer-get_bulk m p e)
      (response-IsWirePdu p.request_id (pos 0) (do_get_bulk m p) d.0 (omega arith) sent, refl, refl)

-- The reply that says tooBig can be sent as well.
too_big-IsReplyTo : (p q : Pdu) → IsReplyTo p q → IsReplyTo p (shorten q)
too_big-IsReplyTo p q h = (
  record { typed = h.0.typed; request = h.0.request; shape = go h.0.shape; sendable = tt },
  h.1,
  h.2,
)
  where
    go : HasShape q → HasShape (shorten q)
    go (inl x) = absurd (omega (arith, x.0, h.2))
    go (inr x) = inr (x.0, x.1, x.2, x.3, omega arith, omega arith)

IsAccepted-IsInt64 : (a : Agent) (msg : Message) → IsAccepted a msg → IsInt64 msg.version
IsAccepted-IsInt64 a msg (inl e, c) = rw e (omega arith)
IsAccepted-IsInt64 a msg (inr e, c) = rw e (omega arith)

-- What a manager that reads `out` gets.
abbrev pub IsReadAs : Agent → Message → Bytes → Type 0
IsReadAs a msg out =
    (r : Message) × (decode_message out ≡ some r)
    × (r.version ≡ msg.version)
    × (r.community ≡ a.community)
    × (r.pdu.request_id ≡ msg.pdu.request_id)
    × (r.pdu.ptype ≡ Tag.get_response)

cap_response-IsReadAs :
    (a : Agent) (msg : Message)
    → IsInt64 msg.version
    → IsReplyTo msg.pdu (reply_to a msg).pdu
    → length a.community ≤ 60000
    → IsReadAs a msg (cap_response (reply_to a msg))
cap_response-IsReadAs a msg v h c = elim (cap_cases (reply_to a msg)) [
  | inl whole ↦
      let read = decode_message-encode_message (reply_to a msg) v h.0 (omega (arith, whole.1)) in
      rw (whole.0) (reply_to a msg, read, refl, refl, h.1, h.2)
  | inr short ↦
      let r = too_big (reply_to a msg) in
      let k = too_big-IsReplyTo msg.pdu (reply_to a msg).pdu h in
      let read =
        decode_message-encode_message r v k.0 (omega (arith, length-too_big (reply_to a msg))) in
      rw short (r, read, refl, refl, k.1, k.2)
]

-- Every response to a Get, GetNext or GetBulk request in a packet of bytes is decoded by a manager
-- to a message of the request's version and the agent's community that holds a response PDU with
-- the request's id, when the leaves of the MIB can be encoded and the community has at most 60000
-- bytes.
pub handle_packet_readable :
    (a : Agent) (req : Bytes) {out : Bytes} {msg : Message}
    → IsBytes req
    → decode_message req ≡ some msg
    → handle_packet a req ≡ some out
    → IsRead msg.pdu
    → IsSendableMib (build_mib a.base_oid a.cache a.host a.uptime)
    → length a.community ≤ 60000
    → IsReadAs a msg out
handle_packet_readable a req {out} {msg} bytes decoded h r w c =
    let m = build_mib a.base_oid a.cache a.host a.uptime in
    let (msg1, decoded1, accepted, same) = (handle_packet_accepts a req).0 out h in
    let one = some_inj (sym decoded ∙ decoded1) in
    let ok = subst (IsAccepted a) (sym one) accepted in
    let d = decode_message-IsDecoded req msg bytes decoded in
    let reply =
      answer-IsReplyTo m msg.pdu (build_mib-IsSorted a.base_oid a.cache a.host a.uptime).0 w d r in
    subst (IsReadAs a msg) (ap (λ x. cap_response (reply_to a x)) one ∙ sym same)
      (cap_response-IsReadAs a msg (IsAccepted-IsInt64 a msg ok) reply c)

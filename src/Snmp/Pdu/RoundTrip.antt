-- ===== src/Snmp/Pdu/RoundTrip.antt =====
-- A message is read back from its encoding.
use openvpnd.Base.{
  ◌∙◌, ℕ, zero, suc, ◌^◌, ◌≤◌, ◌<◌, ◌≡◌, ◌≢◌, ◌⊎◌, inl, inr, refl, ap, true, false, some, List, [],
  ◌∷◌, ◌++◌, append-nil, arith, length, length-append, All, ◌>>=◌,
}
use openvpnd.Base.Int.{ℤ, pos, negsuc, IsInt64}
use openvpnd.Base.Text.{Bytes}
use openvpnd.Snmp.Tag
use openvpnd.Snmp.Oid.{Oid}
use openvpnd.Snmp.Ber.{wrap_tlv, encode_integer, encode_oid, oid_content, read_tlv, integer_content}
use openvpnd.Snmp.Ber.Tlv.{read_tlv-wrap_tlv, length-wrap_tlv}
use openvpnd.Snmp.Ber.Integer.{decode_integer_content-integer_content, length-integer_content}
use openvpnd.Snmp.Ber.Arcs.{IsEncodable, decode_oid_content-oid_content}
use openvpnd.Snmp.Value.{encode_value}
use openvpnd.Snmp.Value.RoundTrip.{IsCanonical, encode_value-Carries}
use openvpnd.Snmp.Pdu.Fuel.{decode_bindings_round}
use openvpnd.Snmp.Pdu.{
  VarBind, Pdu, Message, wrap32, decode_var_bind, read_binding, decode_bindings, make_pdu,
  decode_pdu, decode_message, encode_var_bind, encode_bindings, pdu_tag, first_integer,
  second_integer, encode_pdu, encode_message,
}

pub record IsSendable (b : VarBind) : Type 0 where
  pub encodable : IsEncodable b.name
  pub canonical : IsCanonical b.value

abbrev pub IsInt32 : ℤ → Type 0
IsInt32 (pos n) = n < 2 ^ 31
IsInt32 (negsuc n) = n < 2 ^ 31

-- The unused pair of integers is 0, and the bulk mark follows the type.
abbrev pub HasShape : Pdu → Type 0
HasShape p =
    ((p.ptype ≡ Tag.get_bulk_request)
      × (p.is_bulk ≡ true)
      × (p.error_status ≡ pos 0)
      × (p.error_index ≡ pos 0)
      × IsInt64 p.non_repeaters
      × IsInt64 p.max_repetitions)
    ⊎ ((p.ptype ≢ Tag.get_bulk_request)
        × (p.is_bulk ≡ false)
        × (p.non_repeaters ≡ pos 0)
        × (p.max_repetitions ≡ pos 0)
        × IsInt64 p.error_status
        × IsInt64 p.error_index)

pub record IsWirePdu (p : Pdu) : Type 0 where
  pub typed : p.ptype ≢ 0
  pub request : IsInt32 p.request_id
  pub shape : HasShape p
  pub sendable : All IsSendable p.bindings

read_integer :
    (n : ℤ) (rest : Bytes)
    → read_tlv (encode_integer n ++ rest) ≡ some (Tag.integer, integer_content n, rest)
unfolding encode_integer
read_integer n rest =
    read_tlv-wrap_tlv Tag.integer (integer_content n) rest (omega (arith, length-integer_content n))

read_oid :
    (o : Oid) (rest : Bytes)
    → length (encode_oid o) < 2 ^ 24
    → read_tlv (encode_oid o ++ rest) ≡ some (Tag.oid, oid_content o, rest)
unfolding encode_oid
read_oid o rest h =
    read_tlv-wrap_tlv Tag.oid (oid_content o) rest
      (omega (arith, length-wrap_tlv Tag.oid (oid_content o)))

decode_var_bind-encode :
    (b : VarBind)
    → IsSendable b
    → length (encode_oid b.name ++ encode_value b.value) < 2 ^ 24
    → decode_var_bind (encode_oid b.name ++ encode_value b.value) ≡ some b
decode_var_bind-encode b s h =
    let len = length-append (encode_oid b.name) (encode_value b.value) in
    let carried = encode_value-Carries [] s.canonical (omega arith) in
    unfold decode_var_bind in
    rw (
      read_oid b.name (encode_value b.value) (omega arith),
      decode_oid_content-oid_content b.name s.encodable,
      rw append-nil at carried.read,
      carried.decoded,
    )

decode_bindings_step :
    (f : ℕ) (s c rest : Bytes) (vb : VarBind)
    → read_tlv s ≡ some (Tag.sequence, c, rest)
    → decode_var_bind c ≡ some vb
    → decode_bindings (suc f) s ≡ (decode_bindings f rest >>= λ vbs. some (vb ∷ vbs))
unfolding read_binding
decode_bindings_step f [] c rest vb e d = absurd (unfold read_tlv in cc e)
decode_bindings_step f (b ∷ s) c rest vb e d = decode_bindings_round f b s ∙ rw (e, d) refl

-- The bindings are read back, with a round for every byte.
decode_bindings-encode_bindings :
    (f : ℕ) (bs : List VarBind)
    → length (encode_bindings bs) ≤ f
    → All IsSendable bs
    → length (encode_bindings bs) < 2 ^ 24
    → decode_bindings f (encode_bindings bs) ≡ some bs
unfolding encode_bindings encode_var_bind
decode_bindings-encode_bindings f [] h s k = unfold decode_bindings in refl
decode_bindings-encode_bindings zero (b ∷ bs) h s k =
    let c = encode_oid b.name ++ encode_value b.value in
    absurd (
      omega (
        arith,
        length-append (wrap_tlv Tag.sequence c) (encode_bindings bs),
        length-wrap_tlv Tag.sequence c,
      ))
decode_bindings-encode_bindings (suc f) (b ∷ bs) h s k =
    let c = encode_oid b.name ++ encode_value b.value in
    let len = length-append (wrap_tlv Tag.sequence c) (encode_bindings bs) in
    let low = length-wrap_tlv Tag.sequence c in
    let read = read_tlv-wrap_tlv Tag.sequence c (encode_bindings bs) (omega arith) in
    rw (
      decode_bindings_step f (wrap_tlv Tag.sequence c ++ encode_bindings bs) c (encode_bindings bs)
          b read (decode_var_bind-encode b s.0 (omega arith)),
      decode_bindings-encode_bindings f bs (omega arith) s.1 (omega arith),
    )

wrap32_fits : (z : ℤ) → IsInt32 z → wrap32 z ≡ z
wrap32_fits (pos n) h = ground arith
wrap32_fits (negsuc n) h = ground arith

IsInt32-IsInt64 : (z : ℤ) → IsInt32 z → IsInt64 z
IsInt32-IsInt64 (pos n) h = omega arith
IsInt32-IsInt64 (negsuc n) h = omega arith

make_pdu-fields :
    (p : Pdu)
    → IsWirePdu p
    → make_pdu p.ptype p.request_id (first_integer p) (second_integer p) p.bindings ≡ p
unfolding make_pdu
make_pdu-fields p w = rw (wrap32_fits p.request_id w.request) (ground arith)

integers-IsInt64 : (p : Pdu) → IsWirePdu p → IsInt64 (first_integer p) × IsInt64 (second_integer p)
integers-IsInt64 p w = go w.shape
  where
    go : HasShape p → IsInt64 (first_integer p) × IsInt64 (second_integer p)
    go (inl h) = rw (h.0, h.1) (h.4, h.5)
    go (inr h) = rw (h.1) (h.4, h.5)

tag-typed : (p : Pdu) → IsWirePdu p → pdu_tag p.ptype ≡ p.ptype
tag-typed p w = ground (arith, w.typed)

-- What `encode_pdu` wraps.
pdu_content : Pdu → Bytes
pdu_content p =
    encode_integer p.request_id
    ++ (encode_integer (first_integer p)
        ++ (encode_integer (second_integer p)
            ++ wrap_tlv Tag.sequence (encode_bindings p.bindings)))

pdu_content_bound : (p : Pdu) → length (encode_bindings p.bindings) ≤ length (pdu_content p)
unfolding pdu_content
pdu_content_bound p =
    let vbs = wrap_tlv Tag.sequence (encode_bindings p.bindings) in
    omega (
      arith,
      length-append (encode_integer p.request_id)
          (encode_integer (first_integer p) ++ (encode_integer (second_integer p) ++ vbs)),
      length-append (encode_integer (first_integer p)) (encode_integer (second_integer p) ++ vbs),
      length-append (encode_integer (second_integer p)) vbs,
      length-wrap_tlv Tag.sequence (encode_bindings p.bindings),
    )

decode_pdu-pdu_content :
    (p : Pdu)
    → IsWirePdu p
    → length (pdu_content p) < 2 ^ 24
    → decode_pdu p.ptype (pdu_content p) ≡ some p
decode_pdu-pdu_content p w k =
    let vbs = encode_bindings p.bindings in
    let low = pdu_content_bound p in
    let ints = integers-IsInt64 p w in
    let list = rw append-nil at (read_tlv-wrap_tlv Tag.sequence vbs [] (omega arith)) in
    unfold decode_pdu pdu_content in
    rw
      (
        read_integer p.request_id _,
        decode_integer_content-integer_content p.request_id
            (IsInt32-IsInt64 p.request_id w.request),
        read_integer (first_integer p) _,
        decode_integer_content-integer_content (first_integer p) ints.0,
        read_integer (second_integer p) _,
        decode_integer_content-integer_content (second_integer p) ints.1,
        list,
        decode_bindings-encode_bindings (length vbs) p.bindings (omega arith) w.sendable
            (omega arith),
      )
      (ap some (make_pdu-fields p w))

encode_pdu-content : (p : Pdu) → encode_pdu p ≡ wrap_tlv (pdu_tag p.ptype) (pdu_content p)
unfolding encode_pdu pdu_content
encode_pdu-content p = refl

-- Each content inside a message is shorter than the message.
message_bound :
    (m : Message)
    → length (encode_message m) < 2 ^ 24
    → (length
          (encode_integer m.version ++ (wrap_tlv Tag.octet_string m.community ++ encode_pdu m.pdu))
        < 2 ^ 24)
      × (length m.community < 2 ^ 24)
      × (length (pdu_content m.pdu) < 2 ^ 24)
unfolding encode_message
message_bound m k =
    let body = wrap_tlv Tag.octet_string m.community ++ encode_pdu m.pdu in
    let l1 = length-wrap_tlv Tag.sequence (encode_integer m.version ++ body) in
    let l2 = length-append (encode_integer m.version) body in
    let l3 = length-append (wrap_tlv Tag.octet_string m.community) (encode_pdu m.pdu) in
    let l4 = length-wrap_tlv Tag.octet_string m.community in
    let l5 = length-wrap_tlv (pdu_tag m.pdu.ptype) (pdu_content m.pdu) in
    let e = ap (λ s. length s) (encode_pdu-content m.pdu) in (omega arith, omega arith, omega arith)

-- A well-formed message whose encoding is below 2^24 bytes is read back from that encoding.
pub decode_message-encode_message :
    (m : Message)
    → IsInt64 m.version
    → IsWirePdu m.pdu
    → length (encode_message m) < 2 ^ 24
    → decode_message (encode_message m) ≡ some m
decode_message-encode_message m v w k =
    let body = wrap_tlv Tag.octet_string m.community ++ encode_pdu m.pdu in
    let bound = message_bound m k in
    let low = length-wrap_tlv (pdu_tag m.pdu.ptype) (pdu_content m.pdu) in
    let as_tlv = encode_pdu-content m.pdu in
    let pdu_read =
      rw append-nil at
        (read_tlv-wrap_tlv (pdu_tag m.pdu.ptype) (pdu_content m.pdu) [] (omega arith)) in
    let outer =
      rw append-nil at
        (read_tlv-wrap_tlv Tag.sequence (encode_integer m.version ++ body) [] bound.0) in
    unfold decode_message encode_message in
    rw (
      outer,
      read_integer m.version body,
      decode_integer_content-integer_content m.version v,
      read_tlv-wrap_tlv Tag.octet_string m.community (encode_pdu m.pdu) bound.1,
      as_tlv,
      pdu_read,
      tag-typed m.pdu w,
      decode_pdu-pdu_content m.pdu w (omega arith),
    )

-- ===== src/Snmp/Pdu/Decoded.antt =====
-- What decoding a packet of bytes guarantees: a request id in int32, and names that can be encoded.
use openvpnd.Base.{
  ℕ, zero, suc, ◌+◌, ◌*◌, ◌%◌, ◌^◌, ◌-◌, ◌<◌, ◌≡◌, refl, Option, none, some, List, [], ◌∷◌, arith,
  All, take, drop, length, ltb, Bool-cases, if◌then◌else◌, ◌==◌, ◌||◌, ◌>>=◌, Holds, Holds-bind,
  Holds-any, Holds-some, inl, inr,
}
use openvpnd.Base.Int.{ℤ, pos, negsuc, bits64}
use openvpnd.Base.Text.{Bytes}
use openvpnd.Snmp.Tag
use openvpnd.Snmp.Ber.{
  read_tlv, read_length, read_length_bytes, cut_content, decode_arcs, decode_oid_content,
  decode_integer_content, high_bit,
}
use openvpnd.Snmp.Ber.Arcs.{IsEncodable, IsUint64}
use openvpnd.Snmp.Value.{decode_value}
use openvpnd.Snmp.Pdu.Fuel.{decode_bindings_round}
use openvpnd.Snmp.Pdu.{
  VarBind, Pdu, Message, expect, ◌>>◌, wrap32, decode_var_bind, read_binding, decode_bindings,
  make_pdu, decode_pdu, decode_message,
}
use openvpnd.Snmp.Pdu.RoundTrip.{IsInt32}

abbrev pub IsBytes : Bytes → Type 0
IsBytes = All (λ b. b < 256)

abbrev pub EncodableNames : List VarBind → Type 0
EncodableNames = All (λ (b : VarBind). IsEncodable b.name)

take-IsBytes : (n : ℕ) (s : Bytes) → IsBytes s → IsBytes (take n s)
take-IsBytes zero s h = tt
take-IsBytes (suc n) [] h = tt
take-IsBytes (suc n) (b ∷ s) h = (h.0, take-IsBytes n s h.1)

drop-IsBytes : (n : ℕ) (s : Bytes) → IsBytes s → IsBytes (drop n s)
drop-IsBytes zero s h = h
drop-IsBytes (suc n) [] h = tt
drop-IsBytes (suc n) (b ∷ s) h = drop-IsBytes n s h.1

-- A length reader leaves bytes.
abbrev RestIsBytes : ℕ × Bytes → Type 0
RestIsBytes r = IsBytes r.1

abbrev TlvIsBytes : ℕ × Bytes × Bytes → Type 0
TlvIsBytes r = IsBytes r.1 × IsBytes r.2

read_length_bytes-IsBytes :
    (n l : ℕ) (s : Bytes) → IsBytes s → Holds RestIsBytes (read_length_bytes n l s)
unfolding read_length_bytes
read_length_bytes-IsBytes zero l s h = h
read_length_bytes-IsBytes (suc n) l [] h = tt
read_length_bytes-IsBytes (suc n) l (b ∷ s) h = read_length_bytes-IsBytes n (l * 2 ^ 8 + b) s h.1

read_length-IsBytes : (s : Bytes) → IsBytes s → Holds RestIsBytes (read_length s)
unfolding read_length
read_length-IsBytes [] h = tt
read_length-IsBytes (b ∷ s) h = elim (Bool-cases (ltb b 0x80)) [
  | inl e ↦ rw e h.1
  | inr e ↦ elim (Bool-cases ((b % 128) == 0 || ltb 4 (b % 128))) [
    | inl f ↦ rw (e, f) tt
    | inr f ↦ rw (e, f) (read_length_bytes-IsBytes (b % 128) 0 s h.1)
  ]
]

cut_content-IsBytes : (tag l : ℕ) (s : Bytes) → IsBytes s → Holds TlvIsBytes (cut_content tag l s)
unfolding cut_content
cut_content-IsBytes tag l s h = elim (Bool-cases (ltb (length s) l)) [
  | inl e ↦ rw e tt
  | inr e ↦ rw e (take-IsBytes l s h, drop-IsBytes l s h)
]

read_tlv_cut :
    (tag : ℕ) (s : Bytes) → read_tlv (tag ∷ s) ≡ (read_length s >>= λ r. cut_content tag r.0 r.1)
read_tlv_cut tag s = go (read_length s) refl
  where
    go :
        (o : Option (ℕ × Bytes))
        → read_length s ≡ o
        → read_tlv (tag ∷ s) ≡ (read_length s >>= λ r. cut_content tag r.0 r.1)
    go none e = rw e (unfold read_tlv in rw (e, read_tlv))
    go (some r) e = rw e (unfold read_tlv in rw (e, read_tlv))

read_tlv-IsBytes : (s : Bytes) → IsBytes s → Holds TlvIsBytes (read_tlv s)
read_tlv-IsBytes [] h = unfold read_tlv in tt
read_tlv-IsBytes (tag ∷ s) h = rw read_tlv_cut (
    Holds-bind RestIsBytes TlvIsBytes (read_length s) (λ r. cut_content tag r.0 r.1)
      (read_length-IsBytes s h.1) (λ r k. cut_content-IsBytes tag r.0 r.1 k))

decode_arcs-IsUint64 : (v : ℕ) (s : Bytes) → All IsUint64 (decode_arcs v s)
unfolding decode_arcs
decode_arcs-IsUint64 v [] = tt
decode_arcs-IsUint64 v (b ∷ s) = elim (Bool-cases (high_bit b)) [
  | inl e ↦ rw e (decode_arcs-IsUint64 (v * 2 ^ 7 % 2 ^ 64 + b % 128) s)
  | inr e ↦ rw e (omega arith, decode_arcs-IsUint64 0 s)
]

decode_oid_content-IsEncodable : (s : Bytes) → IsBytes s → Holds IsEncodable (decode_oid_content s)
unfolding decode_oid_content
decode_oid_content-IsEncodable [] h = tt
decode_oid_content-IsEncodable (b ∷ s) h = (omega arith, omega arith, decode_arcs-IsUint64 0 s)

abbrev NameIsEncodable : VarBind → Type 0
NameIsEncodable b = IsEncodable b.name

decode_var_bind-IsEncodable : (s : Bytes) → IsBytes s → Holds NameIsEncodable (decode_var_bind s)
unfolding decode_var_bind
decode_var_bind-IsEncodable s h =
    Holds-bind TlvIsBytes NameIsEncodable (read_tlv s) _ (read_tlv-IsBytes s h) λ r k.
      Holds-bind (λ _. Unit {0}) NameIsEncodable (expect (r.0 == Tag.oid)) _ (Holds-any _)
        λ _ _.
          Holds-bind IsEncodable NameIsEncodable (decode_oid_content r.1) _
            (decode_oid_content-IsEncodable r.1 k.0)
            λ o e.
              Holds-bind (λ _. Unit {0}) NameIsEncodable (read_tlv r.2) _ (Holds-any _)
                λ t _.
                  Holds-bind (λ _. Unit {0}) NameIsEncodable (decode_value t.0 t.1) _ (Holds-any _)
                    λ v _. e

-- A round gives a name that can be encoded, and leaves bytes.
abbrev RoundIsEncodable : VarBind × Bytes → Type 0
RoundIsEncodable r = NameIsEncodable r.0 × IsBytes r.1

read_binding-IsEncodable : (s : Bytes) → IsBytes s → Holds RoundIsEncodable (read_binding s)
unfolding read_binding
read_binding-IsEncodable s h =
    Holds-bind TlvIsBytes RoundIsEncodable (read_tlv s) _ (read_tlv-IsBytes s h) λ r k.
      Holds-bind (λ _. Unit {0}) RoundIsEncodable (expect (r.0 == Tag.sequence)) _ (Holds-any _)
        λ _ _.
          Holds-bind NameIsEncodable RoundIsEncodable (decode_var_bind r.1) _
            (decode_var_bind-IsEncodable r.1 k.0) λ vb e. (e, k.1)

decode_bindings-EncodableNames :
    (f : ℕ) (s : Bytes) → IsBytes s → Holds EncodableNames (decode_bindings f s)
decode_bindings-EncodableNames zero [] h = unfold decode_bindings in tt
decode_bindings-EncodableNames (suc f) [] h = unfold decode_bindings in tt
decode_bindings-EncodableNames zero (b ∷ s) h = unfold decode_bindings in tt
decode_bindings-EncodableNames (suc f) (b ∷ s) h = rw (decode_bindings_round f b s) (
    Holds-bind RoundIsEncodable EncodableNames (read_binding (b ∷ s)) _
      (read_binding-IsEncodable (b ∷ s) h)
      λ r k.
        Holds-bind EncodableNames EncodableNames (decode_bindings f r.1) _
          (decode_bindings-EncodableNames f r.1 k.1) λ vbs es. (k.0, es))

wrap32-IsInt32 : (z : ℤ) → IsInt32 (wrap32 z)
wrap32-IsInt32 z = go (bits64 z % 2 ^ 32) (omega arith)
  where
    go : (w : ℕ) → w < 2 ^ 32 → IsInt32 (if ltb w (2 ^ 31) then pos w else negsuc (2 ^ 32 - 1 - w))
    go w h = ground arith

-- The parts of a decoded PDU that the agent sends back.
abbrev pub IsDecoded : Pdu → Type 0
IsDecoded p = IsInt32 p.request_id × EncodableNames p.bindings

make_pdu-IsDecoded :
    (tag : ℕ) (id n1 n2 : ℤ) (vbs : List VarBind)
    → EncodableNames vbs
    → IsDecoded (make_pdu tag id n1 n2 vbs)
unfolding make_pdu
make_pdu-IsDecoded tag id n1 n2 vbs h = elim (Bool-cases (tag == Tag.get_bulk_request)) [
  | inl e ↦ rw e (wrap32-IsInt32 id, h)
  | inr e ↦ rw e (wrap32-IsInt32 id, h)
]

decode_pdu-IsDecoded : (tag : ℕ) (s : Bytes) → IsBytes s → Holds IsDecoded (decode_pdu tag s)
unfolding decode_pdu
decode_pdu-IsDecoded tag s h =
    Holds-bind TlvIsBytes IsDecoded (read_tlv s) _ (read_tlv-IsBytes s h) λ r k.
      Holds-bind (λ _. Unit {0}) IsDecoded (decode_integer_content r.1) _ (Holds-any _)
        λ id _.
          Holds-bind (λ _. Unit {0}) IsDecoded (expect (r.0 == Tag.integer)) _ (Holds-any _)
            λ _ _.
              Holds-bind TlvIsBytes IsDecoded (read_tlv r.2) _ (read_tlv-IsBytes r.2 k.1) λ r1 k1.
                Holds-bind (λ _. Unit {0}) IsDecoded (decode_integer_content r1.1) _ (Holds-any _)
                  λ n1 _.
                    Holds-bind TlvIsBytes IsDecoded (read_tlv r1.2) _ (read_tlv-IsBytes r1.2 k1.1)
                      λ r2 k2.
                        Holds-bind (λ _. Unit {0}) IsDecoded (decode_integer_content r2.1) _
                          (Holds-any _) λ n2 _. decoded_list tag id n1 n2 r2.2 k2.1
  where
    decoded_list :
        (tag : ℕ) (id n1 n2 : ℤ) (s : Bytes)
        → IsBytes s
        → Holds IsDecoded (
            read_tlv s >>= λ r.
            expect (r.0 == Tag.sequence)
            >> (decode_bindings (length r.1) r.1 >>= λ vbs. some (make_pdu tag id n1 n2 vbs)))
    decoded_list tag id n1 n2 s h =
        Holds-bind TlvIsBytes IsDecoded (read_tlv s) _ (read_tlv-IsBytes s h) λ r k.
          Holds-bind (λ _. Unit {0}) IsDecoded (expect (r.0 == Tag.sequence)) _ (Holds-any _)
            λ _ _.
              Holds-bind EncodableNames IsDecoded (decode_bindings (length r.1) r.1) _
                (decode_bindings-EncodableNames (length r.1) r.1 k.0)
                λ vbs e. make_pdu-IsDecoded tag id n1 n2 vbs e

abbrev pub MessageIsDecoded : Message → Type 0
MessageIsDecoded m = IsDecoded m.pdu

decode_message-Holds : (s : Bytes) → IsBytes s → Holds MessageIsDecoded (decode_message s)
unfolding decode_message
decode_message-Holds s h =
    Holds-bind TlvIsBytes MessageIsDecoded (read_tlv s) _ (read_tlv-IsBytes s h) λ r k.
      Holds-bind (λ _. Unit {0}) MessageIsDecoded (expect (r.0 == Tag.sequence)) _ (Holds-any _)
        λ _ _.
          Holds-bind TlvIsBytes MessageIsDecoded (read_tlv r.1) _ (read_tlv-IsBytes r.1 k.0)
            λ r1 k1.
              Holds-bind (λ _. Unit {0}) MessageIsDecoded (expect (r1.0 == Tag.integer)) _
                (Holds-any _)
                λ _ _.
                  Holds-bind (λ _. Unit {0}) MessageIsDecoded (decode_integer_content r1.1) _
                    (Holds-any _)
                    λ v _.
                      Holds-bind TlvIsBytes MessageIsDecoded (read_tlv r1.2) _
                        (read_tlv-IsBytes r1.2 k1.1)
                        λ r2 k2.
                          Holds-bind (λ _. Unit {0}) MessageIsDecoded
                            (expect (r2.0 == Tag.octet_string)) _ (Holds-any _)
                            λ _ _.
                              Holds-bind TlvIsBytes MessageIsDecoded (read_tlv r2.2) _
                                (read_tlv-IsBytes r2.2 k2.1)
                                λ r3 k3.
                                  Holds-bind IsDecoded MessageIsDecoded (decode_pdu r3.0 r3.1) _
                                    (decode_pdu-IsDecoded r3.0 r3.1 k3.0) λ p d. d

-- A packet of bytes that decodes to a message has a PDU whose request id is an int32 and whose names can all
-- be encoded again.
pub decode_message-IsDecoded :
    (s : Bytes) (m : Message) → IsBytes s → decode_message s ≡ some m → IsDecoded m.pdu
decode_message-IsDecoded s m h e =
    Holds-some MessageIsDecoded (decode_message s) (decode_message-Holds s h) e

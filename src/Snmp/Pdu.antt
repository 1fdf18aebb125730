-- ===== src/Snmp/Pdu.antt =====
-- PDUs and messages (internal/snmp/pdu.go). Every decoding error ends the packet alike, so an error
-- is `none`.
pub mod Fuel
pub mod Decoded
pub mod RoundTrip
use openvpnd.Base.{
  ℕ, zero, suc, Bool, true, false, ◌&&◌, Option, none, some, List, [], ◌∷◌, ◌++◌, ◌==◌, ◌%◌, ◌^◌,
  ◌-◌, ltb, length, if◌then◌else◌, ◌>>=◌,
}
use openvpnd.Base.Int.{ℤ, pos, negsuc, bits64}
use openvpnd.Base.Text.{Bytes}
use openvpnd.Snmp.Tag
use openvpnd.Snmp.Oid.{Oid}
use openvpnd.Snmp.Ber.{
  wrap_tlv, encode_integer, encode_oid, read_tlv, decode_integer_content, decode_oid_content,
}
use openvpnd.Snmp.Value.{Value, encode_value, decode_value}

pub record VarBind : Type 0 where
  pub name : Oid
  pub value : Value

pub record Pdu : Type 0 where
  pub ptype : ℕ
  pub request_id : ℤ
  pub error_status : ℤ
  pub error_index : ℤ
  pub non_repeaters : ℤ
  pub max_repetitions : ℤ
  pub is_bulk : Bool
  pub bindings : List VarBind

pub record Message : Type 0 where
  pub version : ℤ
  pub community : Bytes
  pub pdu : Pdu

abbrev pub expect : Bool → Option (Unit {0})
expect true = some tt
expect false = none

infixl 5 ◌>>◌
abbrev pub ◌>>◌ {ℓ} : {B : Type ℓ} → Option (Unit {0}) → Option B → Option B
m >> k = m >>= λ _. k

-- `int32(id)`
abbrev pub wrap32 : ℤ → ℤ
wrap32 z = let w = bits64 z % 2 ^ 32 in if ltb w (2 ^ 31) then pos w else negsuc (2 ^ 32 - 1 - w)

unfoldable pub decode_var_bind : Bytes → Option VarBind
decode_var_bind content = do
  (t, c, s) ← read_tlv content
  expect (t == Tag.oid)
  oid ← decode_oid_content c
  (tv, cv, _) ← read_tlv s
  val ← decode_value tv cv
  some (record { name = oid; value = val })

-- A round of the loop: a binding, and the bytes behind it.
unfoldable pub read_binding : Bytes → Option (VarBind × Bytes)
unfolding decode_var_bind
read_binding bytes = do
  (t, c, rest) ← read_tlv bytes
  expect (t == Tag.sequence)
  vb ← decode_var_bind c
  some (vb, rest)

-- How the loop is left: by an error, or with the list; or it goes on when the rounds are used up.
pub data Reading : Type 0 where
  goes_on refused : Reading
  finished : List VarBind → Reading

abbrev pub prepend : VarBind → Reading → Reading
prepend vb goes_on = goes_on
prepend vb refused = refused
prepend vb (finished vbs) = finished (vb ∷ vbs)

-- The loop over the list of bindings, for a number of rounds.
unfoldable pub read_bindings : ℕ → Bytes → Reading
unfolding read_binding
read_bindings f [] = finished []
read_bindings zero (b ∷ s) = goes_on
read_bindings (suc f) (b ∷ s) = elim (read_binding (b ∷ s)) [
  | none ↦ refused
  | some (vb, rest) ↦ prepend vb (read_bindings f rest)
]

abbrev pub result : Reading → Option (List VarBind)
result goes_on = none
result refused = none
result (finished vbs) = some vbs

unfoldable pub decode_bindings : ℕ → Bytes → Option (List VarBind)
unfolding read_bindings
decode_bindings f s = result (read_bindings f s)

-- The two integers behind the request id mean other fields in a GetBulk request.
make_pdu : ℕ → ℤ → ℤ → ℤ → List VarBind → Pdu
make_pdu tag id n1 n2 vbs =
    if tag == Tag.get_bulk_request
    then record {
      ptype = tag;
      request_id = wrap32 id;
      error_status = pos 0;
      error_index = pos 0;
      non_repeaters = n1;
      max_repetitions = n2;
      is_bulk = true;
      bindings = vbs;
    }
    else record {
      ptype = tag;
      request_id = wrap32 id;
      error_status = n1;
      error_index = n2;
      non_repeaters = pos 0;
      max_repetitions = pos 0;
      is_bulk = false;
      bindings = vbs;
    }

unfoldable pub decode_pdu : ℕ → Bytes → Option Pdu
unfolding make_pdu decode_bindings
decode_pdu tag content = do
  (t, c, s1) ← read_tlv content
  id ← decode_integer_content c
  expect (t == Tag.integer)
  (t1, c1, s2) ← read_tlv s1
  n1 ← decode_integer_content c1
  (t2, c2, s3) ← read_tlv s2
  n2 ← decode_integer_content c2
  (tl, cl, s4) ← read_tlv s3
  expect (tl == Tag.sequence)
  vbs ← decode_bindings (length cl) cl
  some (make_pdu tag id n1 n2 vbs)

unfoldable pub decode_message : Bytes → Option Message
decode_message bytes = do
  (t, content, s0) ← read_tlv bytes
  expect (t == Tag.sequence)
  (tv, cv, s1) ← read_tlv content
  expect (tv == Tag.integer)
  ver ← decode_integer_content cv
  (tc, cc', s2) ← read_tlv s1
  expect (tc == Tag.octet_string)
  (tp, cp, s3) ← read_tlv s2
  p ← decode_pdu tp cp
  some (record { version = ver; community = cc'; pdu = p })

unfoldable pub encode_var_bind : VarBind → Bytes
encode_var_bind b = wrap_tlv Tag.sequence (encode_oid b.name ++ encode_value b.value)

unfoldable pub encode_bindings : List VarBind → Bytes
encode_bindings [] = []
encode_bindings (b ∷ bs) = encode_var_bind b ++ encode_bindings bs

-- The tag of a PDU whose type was not set is that of a response.
abbrev pub pdu_tag : ℕ → ℕ
pdu_tag t = if t == 0 then Tag.get_response else t

-- The two integers behind the request id.
abbrev pub first_integer : Pdu → ℤ
first_integer p =
    if p.is_bulk && p.ptype == Tag.get_bulk_request then p.non_repeaters else p.error_status

abbrev pub second_integer : Pdu → ℤ
second_integer p =
    if p.is_bulk && p.ptype == Tag.get_bulk_request then p.max_repetitions else p.error_index

unfoldable pub encode_pdu : Pdu → Bytes
encode_pdu p = wrap_tlv (pdu_tag p.ptype) (
    encode_integer p.request_id
    ++ (encode_integer (first_integer p)
        ++ (encode_integer (second_integer p)
            ++ wrap_tlv Tag.sequence (encode_bindings p.bindings))))

unfoldable pub encode_message : Message → Bytes
encode_message m =
    wrap_tlv Tag.sequence
      (encode_integer m.version ++ (wrap_tlv Tag.octet_string m.community ++ encode_pdu m.pdu))

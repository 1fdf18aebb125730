-- ===== src/Snmp/Ber/Shrinks.antt =====
-- Reading a TLV takes at least two bytes from the reader.
use openvpnd.Base.{
  ℕ, zero, suc, ◌+◌, ◌*◌, ◌^◌, ◌%◌, ◌≤◌, ◌<◌, ◌≡◌, some, [], ◌∷◌, arith, inl, inr, length,
  length-drop, Option-cases,
}
use openvpnd.Base.Text.{Bytes}
use openvpnd.Snmp.Ber.{read_tlv, read_length, read_length_bytes, cut_content}

read_length_bytes_shrinks :
    (n l : ℕ) (s : Bytes) {l' : ℕ} {rest : Bytes}
    → read_length_bytes n l s ≡ some (l', rest)
    → length rest ≤ length s
unfolding read_length_bytes
read_length_bytes_shrinks zero l s h = ground arith
read_length_bytes_shrinks (suc n) l [] h = cc
read_length_bytes_shrinks (suc n) l (b ∷ s) h =
    omega (arith, read_length_bytes_shrinks n (l * 2 ^ 8 + b) s h)

read_length_shrinks :
    (s : Bytes) {l : ℕ} {rest : Bytes} → read_length s ≡ some (l, rest) → length rest < length s
unfolding read_length
read_length_shrinks [] h = cc
read_length_shrinks (b ∷ s) {l} {rest} h =
    ground (arith, read_length_bytes_shrinks (b % 128) 0 s {l' = l} {rest = rest})

cut_content_shrinks :
    (tag l : ℕ) (s : Bytes) {t : ℕ} {c rest : Bytes}
    → cut_content tag l s ≡ some (t, c, rest)
    → length rest ≤ length s
unfolding cut_content
cut_content_shrinks tag l s h = ground (arith, length-drop l s)

pub read_tlv_shrinks :
    (s : Bytes) {t : ℕ} {c rest : Bytes}
    → read_tlv s ≡ some (t, c, rest)
    → length rest + 2 ≤ length s
unfolding read_tlv
read_tlv_shrinks [] h = cc
read_tlv_shrinks (tag ∷ s) {t} {c} {rest} h = elim (Option-cases (read_length s)) [
  | inl e ↦ absurd (cc (rw (e, read_tlv) at h))
  | inr ((l, left), e) ↦ omega (
    arith,
    read_length_shrinks s e,
    cut_content_shrinks tag l left {t = t} {c = c} {rest = rest} (rw (e, read_tlv) at h),
  )
]

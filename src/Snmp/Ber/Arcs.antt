-- ===== src/Snmp/Ber/Arcs.antt =====
-- OID contents: the arcs are read back from their base-128 forms.
use mathlib.Core.List.{reverse, reverse-append}
use openvpnd.Base.{
  ℕ, zero, suc, ◌+◌, ◌*◌, ◌/◌, ◌%◌, ◌^◌, ◌<◌, ◌≡◌, refl, ◌∙◌, ap, true, false, some, [], ◌∷◌, ◌++◌,
  map, append_assoc, arith, ltb, ltb→lt, ◌==◌, All, inl, inr, Bool-cases,
}
use openvpnd.Base.Text.{Bytes}
use openvpnd.Snmp.Oid.{Oid}
use openvpnd.Snmp.Ber.{
  groups, set_high, reverse_groups, encode_base128, encode_arcs, oid_content, decode_arcs,
  decode_oid_content,
}

reverse-cons : (b : ℕ) (s : Bytes) → reverse (b ∷ s) ≡ reverse s ++ b ∷ []
reverse-cons b s = reverse-append (b ∷ []) s

decode_arcs_marked :
    (m : ℕ) (rest : Bytes)
    → m < 2 ^ 57
    → decode_arcs (m / 128) (set_high (m % 128) ∷ rest) ≡ decode_arcs m rest
unfolding decode_arcs set_high
decode_arcs_marked m rest h =
    let e : m / 128 * 2 ^ 7 % 2 ^ 64 + (m % 128 + 128) % 128 ≡ m = omega arith in
    let b : (((m % 128 + 128) / 128 % 2) == 1) ≡ true = ground arith in rw (b, e)

groups_zero : (f m : ℕ) → (m == 0) ≡ true → groups (suc f) m ≡ []
unfolding groups
groups_zero f m e = rw e

groups_step : (f m : ℕ) → (m == 0) ≡ false → groups (suc f) m ≡ m % 128 ∷ groups f (m / 128)
unfolding groups
groups_step f m e = rw e

-- The marked groups leave the number that they spell in the accumulator.
decode_arcs-groups :
    (f m : ℕ) (rest : Bytes)
    → m < f
    → m < 2 ^ 57
    → decode_arcs 0 (reverse (map set_high (groups f m)) ++ rest) ≡ decode_arcs m rest
decode_arcs-groups zero m rest h k = absurd (omega arith)
decode_arcs-groups (suc f) m rest h k = elim (Bool-cases (m == 0)) [
  | inl e ↦ rw (groups_zero f m e) (ap (λ n. decode_arcs n rest) (ground arith))
  | inr e ↦
      rw (groups_step f m e, reverse-cons, append_assoc)
        (decode_arcs-groups f (m / 128) (set_high (m % 128) ∷ rest) (ground arith) (omega arith)
          ∙ decode_arcs_marked m rest k)
]

decode_arcs_last :
    (m b : ℕ) (rest : Bytes)
    → m < 2 ^ 57
    → b < 128
    → decode_arcs m (b ∷ rest) ≡ (m * 128 + b) ∷ decode_arcs 0 rest
unfolding decode_arcs
decode_arcs_last m b rest h k = ground arith

encode_small : (n : ℕ) → ltb n 0x80 ≡ true → encode_base128 n ≡ n ∷ []
unfolding encode_base128
encode_small n e = rw e

encode_big :
    (n : ℕ)
    → ltb n 0x80 ≡ false
    → encode_base128 n ≡ reverse (map set_high (groups n (n / 128))) ++ (n % 128) ∷ []
encode_big n e =
    unfold encode_base128 in
    rw e (rw (groups_step n n (ground arith)) (unfold reverse_groups in refl))

-- A uint64 arc is read back from its base-128 form, whatever follows.
pub decode_arcs-encode_base128 :
    (n : ℕ) (rest : Bytes)
    → n < 2 ^ 64
    → decode_arcs 0 (encode_base128 n ++ rest) ≡ n ∷ decode_arcs 0 rest
decode_arcs-encode_base128 n rest h = elim (Bool-cases (ltb n 0x80)) [
  | inl small ↦ rw (encode_small n small) (
      decode_arcs_last 0 n rest (omega arith) (ltb→lt n 0x80 small)
      ∙ ap (λ m. m ∷ decode_arcs 0 rest) (omega arith))
  | inr big ↦
      rw (encode_big n big, append_assoc)
        (decode_arcs-groups n (n / 128) ((n % 128) ∷ rest) (ground arith) (omega arith)
          ∙ decode_arcs_last (n / 128) (n % 128) rest (omega arith) (omega arith)
          ∙ ap (λ m. m ∷ decode_arcs 0 rest) (omega arith))
]

abbrev pub IsUint64 : ℕ → Type 0
IsUint64 n = n < 2 ^ 64

pub decode_arcs-encode_arcs : (o : Oid) → All IsUint64 o → decode_arcs 0 (encode_arcs o) ≡ o
unfolding decode_arcs encode_arcs
decode_arcs-encode_arcs [] h = refl
decode_arcs-encode_arcs (n ∷ o) h =
    decode_arcs-encode_base128 n (encode_arcs o) h.0
    ∙ ap (λ p. n ∷ p) (decode_arcs-encode_arcs o h.1)

-- What one content byte can carry of the first two arcs, and the rest as uint64.
abbrev pub IsEncodable : Oid → Type 0
IsEncodable [] = ⊥
IsEncodable (a ∷ []) = ⊥
IsEncodable (a ∷ b ∷ o) = (b < 40) × (a * 40 + b < 256) × All IsUint64 o

-- An OID of at least two arcs is read back from its content, when its second arc is below 40, forty times the
-- first and the second together are below 256, and the other arcs are uint64.
pub decode_oid_content-oid_content :
    (o : Oid) → IsEncodable o → decode_oid_content (oid_content o) ≡ some o
unfolding decode_oid_content oid_content
decode_oid_content-oid_content [] h = absurd h
decode_oid_content-oid_content (a ∷ []) h = absurd h
decode_oid_content-oid_content (a ∷ b ∷ o) h =
    let first : (a * 40 + b) % 2 ^ 64 % 256 / 40 ≡ a = omega arith in
    let second : (a * 40 + b) % 2 ^ 64 % 256 % 40 ≡ b = omega arith in
    cc (first, second, decode_arcs-encode_arcs o h.2)

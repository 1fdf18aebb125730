-- ===== src/Snmp/Ber/Unsigned.antt =====
-- Unsigned contents: what is written by the shortest form is read back.
use openvpnd.Base.{
  ℕ, ◌+◌, ◌/◌, ◌%◌, ◌^◌, ◌≤◌, ◌<◌, ◌≡◌, ◌≢◌, refl, ◌∙◌, some, [], ◌∷◌, arith, length, ◌==◌, inl,
  inr, Bool-cases,
}
use openvpnd.Base.Text.{Bytes}
use openvpnd.Snmp.Ber.{
  put_uint32, put_uint64, skip_zeros, pad_high, shift_in, decode_unsigned_content,
}

pub shift_in-skip_zeros : (s : Bytes) → shift_in 0 (skip_zeros s) ≡ shift_in 0 s
unfolding skip_zeros shift_in
shift_in-skip_zeros [] = refl
shift_in-skip_zeros (b ∷ []) = refl
shift_in-skip_zeros (b ∷ c ∷ s) = ground (arith, shift_in-skip_zeros (c ∷ s))

pub length-skip_zeros : (s : Bytes) → length (skip_zeros s) ≤ length s
unfolding skip_zeros
length-skip_zeros [] = omega arith
length-skip_zeros (b ∷ []) = omega arith
length-skip_zeros (b ∷ c ∷ s) = ground (arith, length-skip_zeros (c ∷ s))

pub skip_zeros-ne-nil : (b : ℕ) (s : Bytes) → (c : ℕ) × (t : Bytes) × (skip_zeros (b ∷ s) ≡ c ∷ t)
unfolding skip_zeros
skip_zeros-ne-nil b [] = (b, [], refl)
skip_zeros-ne-nil b (c ∷ s) = elim (Bool-cases (b == 0)) [
  | inl e ↦ rw e (skip_zeros-ne-nil c s)
  | inr e ↦ rw e (b, c ∷ s, refl)
]

pub shift_in-put_uint32 : (v : ℕ) → v < 2 ^ 32 → shift_in 0 (put_uint32 v) ≡ v
unfolding shift_in
shift_in-put_uint32 v h = omega arith

pub shift_in-put_uint64 : (v : ℕ) → v < 2 ^ 64 → shift_in 0 (put_uint64 v) ≡ v
unfolding shift_in
shift_in-put_uint64 v h = omega arith

-- Padding and the skipped zero cancel, and a zero in front of nothing is the number 0.
decode-pad_high : (s : Bytes) → s ≢ [] → decode_unsigned_content (pad_high s) ≡ some (shift_in 0 s)
unfolding decode_unsigned_content pad_high shift_in
decode-pad_high [] ne = absurd (ne refl)
decode-pad_high (b ∷ []) ne = ground arith
decode-pad_high (b ∷ c ∷ s) ne = ground arith

skipped-ne-nil : (b : ℕ) (s : Bytes) → skip_zeros (b ∷ s) ≢ []
skipped-ne-nil b s e = let (c, t, f) = skip_zeros-ne-nil b s in cc

decode-skip_zeros :
    (b : ℕ) (s : Bytes)
    → decode_unsigned_content (pad_high (skip_zeros (b ∷ s))) ≡ some (shift_in 0 (b ∷ s))
decode-skip_zeros b s =
    decode-pad_high (skip_zeros (b ∷ s)) (skipped-ne-nil b s) ∙ rw (shift_in-skip_zeros (b ∷ s))

pub decode_unsigned32 :
    (v : ℕ) → v < 2 ^ 32 → decode_unsigned_content (pad_high (skip_zeros (put_uint32 v))) ≡ some v
decode_unsigned32 v h =
    decode-skip_zeros (v / 2 ^ 24 % 256) (v / 2 ^ 16 % 256 ∷ v / 2 ^ 8 % 256 ∷ v % 256 ∷ [])
    ∙ rw (shift_in-put_uint32 v h)

pub decode_unsigned64 :
    (v : ℕ) → v < 2 ^ 64 → decode_unsigned_content (pad_high (skip_zeros (put_uint64 v))) ≡ some v
decode_unsigned64 v h =
    decode-skip_zeros (v / 2 ^ 56 % 256)
      (v / 2 ^ 48 % 256 ∷ v / 2 ^ 40 % 256 ∷ v / 2 ^ 32 % 256 ∷ put_uint32 v)
    ∙ rw (shift_in-put_uint64 v h)

pub length-pad_high : (s : Bytes) → length (pad_high s) ≤ length s + 1
unfolding pad_high
length-pad_high [] = omega arith
length-pad_high (b ∷ s) = ground arith

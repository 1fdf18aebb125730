-- ===== src/Snmp/Ber/Integer.antt =====
-- INTEGER contents: every int64 is read back from its shortest two's-complement form.
use openvpnd.Base.{
  ℕ, ◌/◌, ◌%◌, ◌^◌, ◌-◌, ◌≤◌, ◌<◌, ◌≡◌, ◌≢◌, refl, sym, ◌∙◌, ap, true, false, ◌&&◌, some, [], ◌∷◌,
  arith, length, ◌==◌, inl, inr, Bool-cases,
}
use openvpnd.Base.Int.{ℤ, pos, negsuc, int64_of_bits, IsInt64}
use openvpnd.Base.Text.{Bytes}
use openvpnd.Snmp.Ber.{
  high_bit, put_uint32, put_uint64, skip_zeros, skip_ones, pad_high, shift_in, ones64,
  integer_content, decode_integer_content,
}
use openvpnd.Snmp.Ber.Unsigned.{
  shift_in-skip_zeros, length-skip_zeros, shift_in-put_uint64, skip_zeros-ne-nil, length-pad_high,
}

-- Sign and length of a content decide what is decoded.
decode_nonneg :
    (b : ℕ) (s : Bytes)
    → high_bit b ≡ false
    → length (b ∷ s) ≤ 8
    → decode_integer_content (b ∷ s) ≡ some (int64_of_bits (shift_in 0 (b ∷ s)))
unfolding decode_integer_content
decode_nonneg b s h k = ground arith

decode_neg :
    (b : ℕ) (s : Bytes)
    → high_bit b ≡ true
    → length (b ∷ s) ≤ 8
    → decode_integer_content (b ∷ s) ≡ some (int64_of_bits (shift_in ones64 (b ∷ s)))
unfolding decode_integer_content
decode_neg b s h k = ground arith

-- A padded content of at most seven bytes is read as it stands.
decode-pad_high :
    (s : Bytes)
    → s ≢ []
    → length s ≤ 7
    → decode_integer_content (pad_high s) ≡ some (int64_of_bits (shift_in 0 s))
unfolding decode_integer_content pad_high shift_in
decode-pad_high [] ne h = absurd (ne refl)
decode-pad_high (b ∷ s) ne h = ground arith

shift_in-skip_ones : (s : Bytes) → shift_in ones64 (skip_ones s) ≡ shift_in ones64 s
unfolding skip_ones shift_in
shift_in-skip_ones [] = refl
shift_in-skip_ones (b ∷ []) = refl
shift_in-skip_ones (b ∷ c ∷ s) = ground (arith, shift_in-skip_ones (c ∷ s))

length-skip_ones : (s : Bytes) → length (skip_ones s) ≤ length s
unfolding skip_ones
length-skip_ones [] = omega arith
length-skip_ones (b ∷ []) = omega arith
length-skip_ones (b ∷ c ∷ s) = ground (arith, length-skip_ones (c ∷ s))

-- What is left of a content with its high bit set has its high bit set.
skip_ones-high :
    (b : ℕ) (s : Bytes)
    → high_bit b ≡ true
    → (c : ℕ) × (t : Bytes) × (skip_ones (b ∷ s) ≡ c ∷ t) × (high_bit c ≡ true)
unfolding skip_ones
skip_ones-high b [] h = (b, [], refl, h)
skip_ones-high b (c ∷ s) h = elim (Bool-cases (b == 0xff && high_bit c)) [
  | inl e ↦ rw e (skip_ones-high c s (ground arith))
  | inr e ↦ rw e (b, c ∷ s, refl, h)
]

length-skip_ones-le : (b : ℕ) (s : Bytes) → length (b ∷ s) ≤ 8 → length (skip_ones (b ∷ s)) ≤ 8
length-skip_ones-le b s h = omega (arith, length-skip_ones (b ∷ s))

-- The decoded integer of a negative content is that of all its eight bytes.
decode-skip_ones :
    (b : ℕ) (s : Bytes)
    → high_bit b ≡ true
    → length (b ∷ s) ≤ 8
    → decode_integer_content (skip_ones (b ∷ s)) ≡ some (int64_of_bits (shift_in ones64 (b ∷ s)))
decode-skip_ones b s h k =
    let (c, t, e, high) = skip_ones-high b s h in
    let len : length (c ∷ t) ≤ 8 = rw e at (length-skip_ones-le b s k) in
    rw e (decode_neg c t high len)
    ∙ ap (λ w. some (int64_of_bits w)) (ap (shift_in ones64) (sym e) ∙ shift_in-skip_ones (b ∷ s))

skip_zeros_zero :
    (b c : ℕ) (s : Bytes) → (b == 0) ≡ true → skip_zeros (b ∷ c ∷ s) ≡ skip_zeros (c ∷ s)
unfolding skip_zeros
skip_zeros_zero b c s e = rw e

skip_zeros_other : (b c : ℕ) (s : Bytes) → (b == 0) ≡ false → skip_zeros (b ∷ c ∷ s) ≡ b ∷ c ∷ s
unfolding skip_zeros
skip_zeros_other b c s e = rw e

skipped-ne-nil : (b : ℕ) (s : Bytes) → skip_zeros (b ∷ s) ≢ []
skipped-ne-nil b s e = let (c, t, f) = skip_zeros-ne-nil b s in cc

pad_high_low : (b : ℕ) (s : Bytes) → b < 128 → pad_high (b ∷ s) ≡ b ∷ s
unfolding pad_high
pad_high_low b s h = ground arith

-- A content whose first byte is below 0x80 loses that byte, or needs no padding.
decode-skip_zeros :
    (b c : ℕ) (s : Bytes)
    → b < 128
    → length s ≤ 6
    → decode_integer_content (pad_high (skip_zeros (b ∷ c ∷ s)))
      ≡ some (int64_of_bits (shift_in 0 (b ∷ c ∷ s)))
decode-skip_zeros b c s h k = elim (Bool-cases (b == 0)) [
  | inl e ↦ rw (skip_zeros_zero b c s e) (
      decode-pad_high (skip_zeros (c ∷ s)) (skipped-ne-nil c s)
        (omega (arith, length-skip_zeros (c ∷ s)))
      ∙ ap (λ w. some (int64_of_bits w))
          (ap (shift_in 0) (sym (skip_zeros_zero b c s e)) ∙ shift_in-skip_zeros (b ∷ c ∷ s)))
  | inr e ↦
      rw (skip_zeros_other b c s e, pad_high_low b (c ∷ s) h)
        (decode_nonneg b (c ∷ s) (ground arith) (omega arith))
]

shift_in_ones-put_uint64 : (v : ℕ) → v < 2 ^ 64 → shift_in ones64 (put_uint64 v) ≡ v
unfolding shift_in
shift_in_ones-put_uint64 v h = omega arith

-- Every int64 is read back from its content.
pub decode_integer_content-integer_content :
    (v : ℤ) → IsInt64 v → decode_integer_content (integer_content v) ≡ some v
unfolding integer_content
decode_integer_content-integer_content (pos n) h =
    let w = n % 2 ^ 64 in
    decode-skip_zeros (w / 2 ^ 56 % 256) (w / 2 ^ 48 % 256)
      (w / 2 ^ 40 % 256 ∷ w / 2 ^ 32 % 256 ∷ put_uint32 w) (omega arith) (omega arith)
    ∙ ap (λ x. some (int64_of_bits x)) (shift_in-put_uint64 w (omega arith))
    ∙ ground arith
decode_integer_content-integer_content (negsuc n) h =
    let w = 2 ^ 64 - 1 - n % 2 ^ 64 in
    decode-skip_ones (w / 2 ^ 56 % 256)
      (w / 2 ^ 48 % 256 ∷ w / 2 ^ 40 % 256 ∷ w / 2 ^ 32 % 256 ∷ put_uint32 w) (ground arith)
      (omega arith)
    ∙ ap (λ x. some (int64_of_bits x)) (shift_in_ones-put_uint64 w (omega arith))
    ∙ ground arith

pub length-integer_content : (v : ℤ) → length (integer_content v) ≤ 9
unfolding integer_content
length-integer_content (pos n) =
    let w = n % 2 ^ 64 in
    omega (arith, length-pad_high (skip_zeros (put_uint64 w)), length-skip_zeros (put_uint64 w))
length-integer_content (negsuc n) =
    omega (arith, length-skip_ones (put_uint64 (2 ^ 64 - 1 - n % 2 ^ 64)))

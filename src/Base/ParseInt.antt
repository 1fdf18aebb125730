-- ===== src/Base/ParseInt.antt =====
-- `strconv.ParseInt` in base 10 for an int64 when its error is ignored: a text that is no number gives 0, and
-- one that is out of range the nearest int64.
use Prim.Native.Nat.{ℕ, zero, suc, ◌+◌, ◌-◌, ◌*◌, ◌/◌, ◌%◌, ◌^◌, ◌<◌, min}
use mathlib.Core.Path.{◌≡◌, refl, sym, ◌∙◌, ap}
use mathlib.Core.Logic.{◌≢◌}
use mathlib.Core.Bool.{◌||◌}
use mathlib.Core.List.{[], ◌∷◌, ◌++◌, append_assoc, append-nil}
use native.Mathlib.Omega.{arith}
use openvpnd.Base.Tests.{ltb, ◌==◌, if◌then◌else◌}
use openvpnd.Base.Lists.{All}
use openvpnd.Base.Text.{Bytes}
use openvpnd.Base.Int.{ℤ, pos, negsuc, IsInt64}
use openvpnd.Base.Decimal.{
  digits, format_uint, format_int, IsDigit, minus, All-format_uint, format_uint-ne-nil,
}

-- The value that `ParseUint` returns beside its error; what stands behind an overflow is not read.
scan_value : ℕ → Bytes → ℕ
scan_value n [] = n
scan_value n (c ∷ s) =
    let d = c - b'0' in
    let rest = scan_value (n * 10 + d) s in
    if ltb c b'0' || ltb b'9' c
    then 0
    else if ltb (2 ^ 64 - 1) (n * 10 + d)
    then 2 ^ 64 - 1
    else rest

unfoldable pub parse_int : Bytes → ℤ
unfolding minus scan_value
parse_int [] = pos 0
parse_int (c ∷ s) =
    if c == b'-'
    then minus (min (2 ^ 63) (scan_value 0 s))
    else if c == b'+'
    then pos (min (2 ^ 63 - 1) (scan_value 0 s))
    else pos (min (2 ^ 63 - 1) (scan_value 0 (c ∷ s)))

scan_value-digits :
    (f n : ℕ) (rest : Bytes)
    → n < f
    → n < 2 ^ 64
    → scan_value 0 (digits f n ++ rest) ≡ scan_value n rest
unfolding scan_value digits
scan_value-digits zero n rest h k = absurd (omega arith)
scan_value-digits (suc f) n rest h k = ground (
  arith,
  append_assoc (digits f (n / 10)) ((b'0' + n % 10) ∷ []) rest,
  scan_value-digits f (n / 10) ((b'0' + n % 10) ∷ rest),
)

scan_value-format_uint : (n : ℕ) → n < 2 ^ 64 → scan_value 0 (format_uint n) ≡ n
scan_value-format_uint n h =
    unfold format_uint scan_value in
    ap (scan_value 0) (sym (append-nil (digits (suc n) n)))
    ∙ scan_value-digits (suc n) n [] (omega arith) h

parse_int_digits :
    (s : Bytes) → s ≢ [] → All IsDigit s → parse_int s ≡ pos (min (2 ^ 63 - 1) (scan_value 0 s))
unfolding parse_int
parse_int_digits [] h k = absurd (h refl)
parse_int_digits (c ∷ s) h k = ground arith

-- Every int64 is read back from its decimal print.
pub parse_int-format_int : (z : ℤ) → IsInt64 z → parse_int (format_int z) ≡ z
unfolding format_int
parse_int-format_int (pos n) h =
    parse_int_digits (format_uint n) (format_uint-ne-nil n) (All-format_uint n)
    ∙ ap (λ v. pos (min (2 ^ 63 - 1) v)) (scan_value-format_uint n (omega (arith, h)))
    ∙ ap pos (omega (arith, h))
parse_int-format_int (negsuc n) h =
    let fits : min (2 ^ 63) (suc n) ≡ suc n = omega (arith, h) in
    unfold parse_int minus in rw (scan_value-format_uint (suc n) (omega (arith, h))) (ap minus fits)

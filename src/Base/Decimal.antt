-- ===== src/Base/Decimal.antt =====
-- `strconv.FormatUint` and `strconv.ParseUint` in base 10, and `fmt.Sprintf("%d")`.
use Prim.Native.Nat.{ℕ, zero, suc, ◌+◌, ◌-◌, ◌*◌, ◌/◌, ◌%◌, ◌^◌, ◌≤◌, ◌<◌}
use mathlib.Core.Path.{◌≡◌, refl, sym, ◌∙◌, ap}
use mathlib.Core.Logic.{◌≢◌, inl, inr}
use mathlib.Core.Bool.{◌||◌}
use mathlib.Core.Option.{Option, none, some}
use mathlib.Core.List.{[], ◌∷◌, ◌++◌, append_assoc, append-nil, concat-ne-nil}
use native.Mathlib.Omega.{arith}
use openvpnd.Base.Tests.{ltb, ◌==◌, ◌>>=◌, Bool-cases, if◌then◌else◌}
use openvpnd.Base.Lists.{All, All-append}
use openvpnd.Base.Text.{Bytes}
use openvpnd.Base.Int.{ℤ, pos, negsuc}

-- The last digit is behind the digits of the quotient; the fuel is one more than the number.
unfoldable pub digits : ℕ → ℕ → Bytes
digits zero n = []
digits (suc f) n =
    let front = digits f (n / 10) in
    if ltb n 10 then (b'0' + n) ∷ [] else front ++ ((b'0' + n % 10) ∷ [])

unfoldable pub format_uint : ℕ → Bytes
unfolding digits
format_uint n = digits (suc n) n

unfoldable pub format_int : ℤ → Bytes
unfolding format_uint
format_int (pos n) = format_uint n
format_int (negsuc n) = b'-' ∷ format_uint (suc n)

-- The digits read so far are `n`; a value above `limit` is a range error.
scan : ℕ → ℕ → Bytes → Option ℕ
scan limit n [] = some n
scan limit n (c ∷ s) =
    let d = c - b'0' in
    if ltb c b'0' || ltb b'9' c
    then none
    else if ltb limit (n * 10 + d)
    then none
    else scan limit (n * 10 + d) s

-- `limit` is the largest value of the bit size.
unfoldable pub parse_uint : ℕ → Bytes → Option ℕ
unfolding scan
parse_uint limit [] = none
parse_uint limit (c ∷ s) = scan limit 0 (c ∷ s)

abbrev pub IsDigit : ℕ → Type 0
IsDigit c = (b'0' ≤ c) × (c ≤ b'9')

scan-digits :
    (limit f n : ℕ) (rest : Bytes)
    → n < f
    → n ≤ limit
    → scan limit 0 (digits f n ++ rest) ≡ scan limit n rest
unfolding scan digits
scan-digits limit zero n rest h k = absurd (omega arith)
scan-digits limit (suc f) n rest h k = ground (
  arith,
  append_assoc (digits f (n / 10)) ((b'0' + n % 10) ∷ []) rest,
  scan-digits limit f (n / 10) ((b'0' + n % 10) ∷ rest),
)

All-digits : (f n : ℕ) → All IsDigit (digits f n)
unfolding digits
All-digits zero n = tt
All-digits (suc f) n = elim (Bool-cases (ltb n 10)) [
  | inl small ↦ rw small (ground arith)
  | inr big ↦ rw big (
      All-append IsDigit (digits f (n / 10)) ((b'0' + n % 10) ∷ []) (All-digits f (n / 10))
        (omega arith))
]

digits-ne-nil : (f n : ℕ) → digits (suc f) n ≢ []
unfolding digits
digits-ne-nil f n = ground (arith, concat-ne-nil (b'0' + n % 10) (digits f (n / 10)))

pub All-format_uint : (n : ℕ) → All IsDigit (format_uint n)
unfolding format_uint
All-format_uint n = All-digits (suc n) n

pub format_uint-ne-nil : (n : ℕ) → format_uint n ≢ []
unfolding format_uint
format_uint-ne-nil n = digits-ne-nil n n

parse_uint-scan : (limit : ℕ) (s : Bytes) → s ≢ [] → parse_uint limit s ≡ scan limit 0 s
unfolding parse_uint
parse_uint-scan limit [] h = absurd (h refl)
parse_uint-scan limit (c ∷ s) h = refl

-- A number within the limit is read back from its decimal print.
pub parse_uint-format_uint : (limit n : ℕ) → n ≤ limit → parse_uint limit (format_uint n) ≡ some n
parse_uint-format_uint limit n h =
    parse_uint-scan limit (format_uint n) (format_uint-ne-nil n)
    ∙ (unfold format_uint scan in
        ap (scan limit 0) (sym (append-nil (digits (suc n) n)))
        ∙ scan-digits limit (suc n) n [] (omega arith) h)

unfoldable pub minus : ℕ → ℤ
minus zero = pos 0
minus (suc n) = negsuc n

-- `strconv.Atoi`: a sign, and the digits of an int64.
unfoldable pub atoi : Bytes → Option ℤ
unfolding minus parse_uint
atoi [] = none
atoi (c ∷ s) =
    if c == b'-'
    then (parse_uint (2 ^ 63) s >>= λ n. some (minus n))
    else if c == b'+'
    then (parse_uint (2 ^ 63 - 1) s >>= λ n. some (pos n))
    else (parse_uint (2 ^ 63 - 1) (c ∷ s) >>= λ n. some (pos n))

-- ===== src/Base/Strings.antt =====
-- More of Go's `strings`, and `strconv.Quote`; letters change case on ASCII only.
use Prim.Native.Nat.{ℕ, suc, ◌+◌, ◌-◌, ◌/◌, ◌%◌}
use mathlib.Core.Bool.{Bool, true, false, ◌&&◌, ◌||◌}
use mathlib.Core.Option.{Option, none, some}
use mathlib.Core.List.{List, [], ◌∷◌, ◌++◌, map, reverse}
use openvpnd.Base.Tests.{ltb, leb, ◌==◌, ◌>>=◌, if◌then◌else◌}
use openvpnd.Base.Text.{Bytes, bytes_eq, to_lower, ascii_space, two_byte_space, three_byte_space}

-- `strings.HasPrefix` with its arguments swapped.
unfoldable pub starts_with : Bytes → Bytes → Bool
starts_with [] s = true
starts_with (c ∷ p) [] = false
starts_with (c ∷ p) (d ∷ s) = (c == d) && starts_with p s

-- `strings.Index`, `none` for -1.
unfoldable pub index : Bytes → Bytes → Option ℕ
unfolding starts_with
index [] sub = if starts_with sub [] then some 0 else none
index (c ∷ s) sub =
    let rest = index s sub in
    if starts_with sub (c ∷ s) then some 0 else (rest >>= λ i. some (suc i))

unfoldable pub contains : Bytes → Bytes → Bool
unfolding index
contains s sub = elim (index s sub) [ none ↦ false | some i ↦ true ]

unfoldable pub has_byte : ℕ → Bytes → Bool
has_byte b [] = false
has_byte b (c ∷ s) = (c == b) || has_byte b s

-- `strings.Join`.
unfoldable pub join : Bytes → List Bytes → Bytes
join sep [] = []
join sep (s ∷ []) = s
join sep (s ∷ t ∷ ss) = s ++ sep ++ join sep (t ∷ ss)

-- `strings.TrimLeft` and `strings.TrimRight` with one byte to cut.
unfoldable pub trim_left : ℕ → Bytes → Bytes
trim_left b [] = []
trim_left b (c ∷ s) = let rest = trim_left b s in if c == b then rest else c ∷ s

unfoldable pub trim_right : ℕ → Bytes → Bytes
unfolding trim_left
trim_right b s = reverse (trim_left b (reverse s))

-- What stands before the last `b`; `strings.LastIndex` finds where.
unfoldable pub before_last : ℕ → Bytes → Option Bytes
before_last b [] = none
before_last b (c ∷ s) = elim (before_last b s) [
  | some front ↦ some (c ∷ front)
  | none ↦ if c == b then some [] else none
]

unfoldable pub equal_fold : Bytes → Bytes → Bool
unfolding to_lower
equal_fold s t = bytes_eq (to_lower s) (to_lower t)

upper_byte : ℕ → ℕ
upper_byte c = if leb b'a' c && leb c b'z' then c - 32 else c

unfoldable pub to_upper : Bytes → Bytes
unfolding upper_byte
to_upper = map upper_byte

-- `strings.ReplaceAll` of a byte by a string.
unfoldable pub replace_byte : ℕ → Bytes → Bytes → Bytes
replace_byte b by [] = []
replace_byte b by (c ∷ s) =
    let rest = replace_byte b by s in if c == b then by ++ rest else c ∷ rest

space_ahead : Bytes → Bool
unfolding ascii_space two_byte_space three_byte_space
space_ahead [] = false
space_ahead (a ∷ []) = ascii_space a
space_ahead (a ∷ b ∷ []) = ascii_space a || two_byte_space a b
space_ahead (a ∷ b ∷ c ∷ s) = ascii_space a || two_byte_space a b || three_byte_space a b c

-- The first of `strings.Fields` of a text that does not begin with a space.
unfoldable pub first_field : Bytes → Bytes
unfolding space_ahead
first_field [] = []
first_field (c ∷ s) = let rest = first_field s in if space_ahead (c ∷ s) then [] else c ∷ rest

hex_digit : ℕ → ℕ
hex_digit n = if ltb n 10 then b'0' + n else b'a' + (n - 10)

quote_byte : ℕ → Bytes
unfolding hex_digit
quote_byte c =
    if c == b'"'
    then b'\\' ∷ b'"' ∷ []
    else if c == b'\\'
    then b'\\' ∷ b'\\' ∷ []
    else if c == 7
    then b'\\' ∷ b'a' ∷ []
    else if c == 8
    then b'\\' ∷ b'b' ∷ []
    else if c == 9
    then b'\\' ∷ b't' ∷ []
    else if c == 10
    then b'\\' ∷ b'n' ∷ []
    else if c == 11
    then b'\\' ∷ b'v' ∷ []
    else if c == 12
    then b'\\' ∷ b'f' ∷ []
    else if c == 13
    then b'\\' ∷ b'r' ∷ []
    else if ltb c 32 || (c == 127)
    then b'\\' ∷ b'x' ∷ hex_digit (c / 16) ∷ hex_digit (c % 16) ∷ []
    else c ∷ []

quote_bytes : Bytes → Bytes
unfolding quote_byte
quote_bytes [] = []
quote_bytes (c ∷ s) = quote_byte c ++ quote_bytes s

-- `strconv.Quote`; what is not ASCII is taken to be printable.
unfoldable pub quote : Bytes → Bytes
unfolding quote_bytes
quote s = b'"' ∷ quote_bytes s ++ (b'"' ∷ [])

-- ===== src/Base/Text.antt =====
-- Go strings as byte lists: equality, `strings.TrimSpace`, `strings.ToLower` on ASCII, literals.
use Prim.Native.Char.{code}
use Prim.Native.String.{String}
use Prim.Native.Nat.{ℕ, ◌+◌, ◌<◌}
use mathlib.Core.Path.{◌≡◌, refl}
use mathlib.Core.Logic.{◌↔◌}
use mathlib.Core.Bool.{Bool, true, false, ◌&&◌, ◌||◌}
use mathlib.Core.List.{List, [], ◌∷◌, map, reverse, reverse-reverse}
use native.Mathlib.Omega.{arith}
use openvpnd.Base.Tests.{leb, ◌==◌, if◌then◌else◌}
use openvpnd.Base.Lists.{All, All-reverse}

abbrev pub Bytes : Type 0
Bytes = List ℕ

-- The bytes of an ASCII literal.
abbrev pub codes : String → Bytes
codes String.[] = []
codes (String.◌∷◌ c s) = code c ∷ codes s

unfoldable pub bytes_eq : Bytes → Bytes → Bool
bytes_eq [] [] = true
bytes_eq [] (y ∷ ys) = false
bytes_eq (x ∷ xs) [] = false
bytes_eq (x ∷ xs) (y ∷ ys) = (x == y) && bytes_eq xs ys

pub bytes_eq→eq : (s t : Bytes) → bytes_eq s t ≡ true → s ≡ t
unfolding bytes_eq
bytes_eq→eq [] [] h = refl
bytes_eq→eq [] (y ∷ ys) h = ground arith
bytes_eq→eq (x ∷ xs) [] h = ground arith
bytes_eq→eq (x ∷ xs) (y ∷ ys) h = ground (arith, bytes_eq→eq xs ys)

pub bytes_eq_refl : (s : Bytes) → bytes_eq s s ≡ true
unfolding bytes_eq
bytes_eq_refl [] = refl
bytes_eq_refl (x ∷ xs) = ground (arith, bytes_eq_refl xs)

pub bytes_eq_iff : (s t : Bytes) → (bytes_eq s t ≡ true) ↔ (s ≡ t)
bytes_eq_iff s t = (bytes_eq→eq s t, λ e. rw e (bytes_eq_refl t))

-- The whitespace of `unicode.IsSpace`, by the bytes of its encoding.
unfoldable pub ascii_space : ℕ → Bool
ascii_space c = (leb 9 c && leb c 13) || c == b' '

unfoldable pub two_byte_space : ℕ → ℕ → Bool
two_byte_space a b = a == 0xC2 && (b == 0x85 || b == 0xA0)

unfoldable pub three_byte_space : ℕ → ℕ → ℕ → Bool
three_byte_space a b c =
    (a == 0xE1 && b == 0x9A && c == 0x80)
    || (a == 0xE2
        && b == 0x80
        && ((leb 0x80 c && leb c 0x8A) || c == 0xA8 || c == 0xA9 || c == 0xAF))
    || (a == 0xE2 && b == 0x81 && c == 0x9F)
    || (a == 0xE3 && b == 0x80 && c == 0x80)

-- Cut the leading whitespace, its encodings recognised by `two` and `three`.
module _ (two : ℕ → ℕ → Bool) (three : ℕ → ℕ → ℕ → Bool) where
  trim_front : Bytes → Bytes
  trim_front [] = []
  trim_front (a ∷ []) = if ascii_space a then [] else a ∷ []
  trim_front (a ∷ b ∷ []) =
      let after_one = trim_front (b ∷ []) in
      if ascii_space a then after_one else if two a b then [] else a ∷ b ∷ []
  trim_front (a ∷ b ∷ c ∷ s) =
      let after_one = trim_front (b ∷ c ∷ s) in
      let after_two = trim_front (c ∷ s) in
      let after_three = trim_front s in
      if ascii_space a
      then after_one
      else if two a b
      then after_two
      else if three a b c
      then after_three
      else a ∷ b ∷ c ∷ s

-- `strings.TrimSpace`: the front, and the back read backwards.
unfoldable pub trim_space : Bytes → Bytes
unfolding trim_front ascii_space two_byte_space three_byte_space
trim_space s = reverse (
    trim_front (λ b a. two_byte_space a b) (λ c b a. three_byte_space a b c)
      (reverse (trim_front two_byte_space three_byte_space s)))

-- `strings.ToLower` on ASCII letters.
unfoldable pub lower_byte : ℕ → ℕ
lower_byte c = if leb b'A' c && leb c b'Z' then c + 32 else c

unfoldable pub to_lower : Bytes → Bytes
unfolding lower_byte
to_lower = map lower_byte

-- A visible ASCII byte, which no trimming removes.
abbrev pub IsVisible : ℕ → Type 0
IsVisible c = (b' ' < c) × (c < 0x80)

trim_front_visible :
    (s : Bytes)
    → All IsVisible s
    → (trim_front two_byte_space three_byte_space s ≡ s)
      × (trim_front (λ b a. two_byte_space a b) (λ c b a. three_byte_space a b c) s ≡ s)
unfolding trim_front ascii_space two_byte_space three_byte_space
trim_front_visible [] h = (refl, refl)
trim_front_visible (a ∷ []) h = ground arith
trim_front_visible (a ∷ b ∷ []) h = ground arith
trim_front_visible (a ∷ b ∷ c ∷ s) h = ground arith

pub trim_space_visible : (s : Bytes) → All IsVisible s → trim_space s ≡ s
trim_space_visible s h =
    unfold trim_space in
    rw ((trim_front_visible s h).0, (trim_front_visible (reverse s) (All-reverse IsVisible s h)).1)
      (reverse-reverse s)

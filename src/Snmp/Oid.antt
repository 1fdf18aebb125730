-- ===== src/Snmp/Oid.antt =====
-- Object identifiers (internal/snmp/oid.go): parsing, printing, order and prefixes.
pub mod Text
pub mod Order
use openvpnd.Base.{
  ℕ, ◌^◌, ◌-◌, Bool, true, false, not, ◌&&◌, Option, none, some, List, [], ◌∷◌, ◌++◌, ◌==◌, ltb,
  length, if◌then◌else◌,
}
use openvpnd.Base.Int.{ℤ, pos, negsuc}
use openvpnd.Base.Text.{Bytes, trim_space}
use openvpnd.Base.Decimal.{format_uint, parse_uint}
use openvpnd.Base.Split.{split}

abbrev pub Oid : Type 0
Oid = List ℕ

abbrev pub max_uint32 : ℕ
max_uint32 = 2 ^ 32 - 1

-- The loop over the parts: an empty part and a part that is no uint32 are passed over.
parse_parts : List Bytes → Oid
parse_parts [] = []
parse_parts ([] ∷ ps) = parse_parts ps
parse_parts ((c ∷ p) ∷ ps) =
    let rest = parse_parts ps in
    elim (parse_uint max_uint32 (c ∷ p)) [ none ↦ rest | some n ↦ n ∷ rest ]

-- `strings.TrimPrefix(s, ".")`
trim_dot : Bytes → Bytes
trim_dot [] = []
trim_dot (c ∷ s) = if c == b'.' then s else c ∷ s

parse_trimmed : Bytes → Oid
parse_trimmed [] = []
parse_trimmed (c ∷ s) = parse_parts (split b'.' (c ∷ s))

unfoldable pub parse_oid : Bytes → Oid
unfolding parse_parts trim_dot parse_trimmed
parse_oid s = parse_trimmed (trim_dot (trim_space s))

-- The rounds of `String` behind the first one.
dotted : Oid → Bytes
dotted [] = []
dotted (n ∷ o) = b'.' ∷ format_uint n ++ dotted o

unfoldable pub oid_string : Oid → Bytes
unfolding dotted
oid_string [] = []
oid_string (n ∷ o) = format_uint n ++ dotted o

-- The comparison loop of `Equal` and `IsPrefix`, over the items of the first OID.
same_items : Oid → Oid → Bool
same_items [] p = true
same_items (x ∷ o) [] = false
same_items (x ∷ o) (y ∷ p) = (x == y) && same_items o p

unfoldable pub equal : Oid → Oid → Bool
unfolding same_items
equal o p = if not (length o == length p) then false else same_items o p

unfoldable pub child : Oid → List ℕ → Oid
child o extra = o ++ extra

-- The loop of `Compare` over the common length; `none` when it runs to its end.
first_difference : Oid → Oid → Option ℤ
first_difference [] p = none
first_difference (x ∷ o) [] = none
first_difference (x ∷ o) (y ∷ p) =
    let rest = first_difference o p in
    if ltb x y then some (negsuc 0) else if ltb y x then some (pos 1) else rest

by_length : Oid → Oid → ℤ
by_length o p =
    if ltb (length o) (length p)
    then negsuc 0
    else if ltb (length p) (length o)
    then pos 1
    else pos 0

-- The results are -1, 0 and 1.
unfoldable pub compare : Oid → Oid → ℤ
unfolding first_difference by_length
compare o p = elim (first_difference o p) [ some r ↦ r | none ↦ by_length o p ]

unfoldable pub is_prefix : Oid → Oid → Bool
unfolding same_items
is_prefix o p = if ltb (length p) (length o) then false else same_items o p

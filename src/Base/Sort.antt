-- ===== src/Base/Sort.antt =====
-- `sort.Strings`: byte strings in the order of their bytes. The source sorts lists without equal
-- strings, for which every sorting algorithm gives the same list.
use mathlib.Core.Path.{◌≡◌, refl}
use mathlib.Core.Bool.{Bool, true, false, ◌||◌, ◌&&◌}
use mathlib.Core.List.{List, [], ◌∷◌}
use native.Mathlib.Omega.{arith}
use openvpnd.Base.Tests.{ltb, ◌==◌, if◌then◌else◌}
use openvpnd.Base.Text.{Bytes, bytes_eq}

abbrev bytes_leb : Bytes → Bytes → Bool
bytes_leb [] t = true
bytes_leb (c ∷ s) [] = false
bytes_leb (c ∷ s) (d ∷ t) = ltb c d || ((c == d) && bytes_leb s t)

insert_string : Bytes → List Bytes → List Bytes
insert_string s [] = s ∷ []
insert_string s (t ∷ ts) =
    let rest = insert_string s ts in if bytes_leb s t then s ∷ t ∷ ts else t ∷ rest

unfoldable pub sort_strings : List Bytes → List Bytes
unfolding insert_string
sort_strings [] = []
sort_strings (s ∷ ss) = insert_string s (sort_strings ss)

unfoldable pub member : Bytes → List Bytes → Bool
member k [] = false
member k (s ∷ ss) = bytes_eq s k || member k ss

member-insert_string :
    (k s : Bytes) (ts : List Bytes) → member k (insert_string s ts) ≡ (bytes_eq s k || member k ts)
unfolding member insert_string
member-insert_string k s [] = refl
member-insert_string k s (t ∷ ts) = ground (arith, member-insert_string k s ts)

-- Sorting keeps the members.
pub member-sort_strings : (k : Bytes) (ss : List Bytes) → member k (sort_strings ss) ≡ member k ss
unfolding member sort_strings
member-sort_strings k [] = refl
member-sort_strings k (s ∷ ss) =
    ground (arith, member-insert_string k s (sort_strings ss), member-sort_strings k ss)

-- ===== src/Base/Paths.antt =====
-- `filepath.Clean` and `filepath.Join` of two names, on slash-separated paths.
use mathlib.Core.Bool.{Bool, ◌||◌}
use mathlib.Core.List.{List, [], ◌∷◌, ◌++◌, reverse}
use openvpnd.Base.Tests.{if◌then◌else◌}
use openvpnd.Base.Text.{Bytes, codes, bytes_eq}
use openvpnd.Base.Split.{split}
use openvpnd.Base.Strings.{starts_with, join}

-- The names that stay, the last one first; `..` takes the last one away, unless there is none.
abbrev up : Bool → List Bytes → List Bytes
up rooted [] = if rooted then [] else codes ".." ∷ []
up rooted (n ∷ names) = if bytes_eq n (codes "..") then codes ".." ∷ n ∷ names else names

resolve : Bool → List Bytes → List Bytes → List Bytes
resolve rooted names [] = names
resolve rooted names (n ∷ ns) =
    resolve rooted
      (if bytes_eq n [] || bytes_eq n (codes ".")
        then names
        else if bytes_eq n (codes "..")
        then up rooted names
        else n ∷ names)
      ns

abbrev or_dot : Bytes → Bytes
or_dot [] = codes "."
or_dot (c ∷ s) = c ∷ s

unfoldable pub clean : Bytes → Bytes
unfolding resolve
clean s =
    let rooted = starts_with (codes "/") s in
    let names = join (codes "/") (reverse (resolve rooted [] (split b'/' s))) in
    if rooted then codes "/" ++ names else or_dot names

-- The second name is not empty.
unfoldable pub join_path : Bytes → Bytes → Bytes
unfolding clean
join_path [] name = clean name
join_path (c ∷ dir) name = clean ((c ∷ dir) ++ codes "/" ++ name)

-- ===== src/Features/Dedupe.antt =====
-- What the merge of presets keeps (internal/features/presets.go).
use mathlib.Core.Path.{subst}
use openvpnd.Base.{
  ◌≡◌, ◌≢◌, refl, sym, ap, ◌∙◌, false, ◌||◌, Option, none, some, List, [], ◌∷◌, if_lem,
  if◌then◌else◌, arith,
}
use openvpnd.Base.Text.{Bytes, bytes_eq, bytes_eq_iff}
use openvpnd.Base.Assoc.{Assoc, lookup, put, keys, lookup-put}
use openvpnd.Base.Sort.{member}
use openvpnd.Models.{EnvVar}
use openvpnd.Features.{env_map, env_of, dedupe_env}

-- The value that a list gives a name, first entry and last entry.
unfoldable pub value_of : Bytes → List EnvVar → Option Bytes
value_of n [] = none
value_of n (e ∷ es) = if bytes_eq e.name n then some e.value else value_of n es

abbrev or_later : Option Bytes → Option Bytes → Option Bytes
or_later o none = o
or_later o (some v) = some v

unfoldable pub last_value : Bytes → List EnvVar → Option Bytes
last_value n [] = none
last_value n (e ∷ es) =
    or_later (if bytes_eq e.name n then some e.value else none) (last_value n es)

abbrev pub names_of : List EnvVar → List Bytes
names_of [] = []
names_of (e ∷ es) = e.name ∷ names_of es

abbrev pub IsDistinct : List Bytes → Type 0
IsDistinct [] = Unit
IsDistinct (k ∷ ks) = (member k ks ≡ false) × IsDistinct ks

member-put :
    (j k : Bytes) (v : Bytes) (m : Assoc Bytes)
    → member j (keys (put k v m)) ≡ (bytes_eq k j || member j (keys m))
unfolding member keys put
member-put j k v [] = refl
member-put j k v ((i, w) ∷ m) =
    ground (arith, bytes_eq_iff k j, bytes_eq_iff i k, bytes_eq_iff i j, member-put j k v m)

put-IsDistinct :
    (k v : Bytes) (m : Assoc Bytes) → IsDistinct (keys m) → IsDistinct (keys (put k v m))
unfolding keys put member
put-IsDistinct k v [] h = (refl, tt)
put-IsDistinct k v ((i, w) ∷ m) h =
    if_lem (λ (m : Assoc Bytes). IsDistinct (keys m)) (bytes_eq i k)
      (λ e. (subst (λ x. member x (keys m) ≡ false) ((bytes_eq_iff i k).0 e) (h.0), h.1))
      (λ e. (
        ground (arith, h.0, member-put i k v m, bytes_eq_iff i k, bytes_eq_iff k i),
        put-IsDistinct k v m h.1,
      ))

env_map-IsDistinct :
    (es : List EnvVar) (m : Assoc Bytes) → IsDistinct (keys m) → IsDistinct (keys (env_map es m))
unfolding env_map
env_map-IsDistinct [] m h = h
env_map-IsDistinct (e ∷ es) m h =
    env_map-IsDistinct es (if bytes_eq e.name [] then m else put e.name e.value m) (
      if_lem (λ (m : Assoc Bytes). IsDistinct (keys m)) (bytes_eq e.name []) (λ _. h)
        (λ _. put-IsDistinct e.name e.value m h))

-- One entry more, before the later ones.
lookup-entry :
    (n : Bytes) (e : EnvVar) (m : Assoc Bytes)
    → n ≢ []
    → lookup n (if bytes_eq e.name [] then m else put e.name e.value m)
      ≡ or_later (lookup n m) (if bytes_eq e.name n then some e.value else none)
lookup-entry n e m h =
    if_lem
      (λ (r : Assoc Bytes).
        lookup n r ≡ or_later (lookup n m) (if bytes_eq e.name n then some e.value else none))
      (bytes_eq e.name [])
      (λ b. ground (arith, h, b, bytes_eq_iff e.name [], bytes_eq_iff e.name n))
      (λ b. ground (arith, lookup-put e.name n e.value m))

or_later_assoc : (a b c : Option Bytes) → or_later (or_later a b) c ≡ or_later a (or_later b c)
or_later_assoc a b none = refl
or_later_assoc a b (some v) = refl

lookup-env_map :
    (n : Bytes) (es : List EnvVar) (m : Assoc Bytes)
    → n ≢ []
    → lookup n (env_map es m) ≡ or_later (lookup n m) (last_value n es)
unfolding env_map last_value
lookup-env_map n [] m h = refl
lookup-env_map n (e ∷ es) m h =
    let n_is = bytes_eq e.name n in
    lookup-env_map n es (if bytes_eq e.name [] then m else put e.name e.value m) h
    ∙ ap (λ o. or_later o (last_value n es)) (lookup-entry n e m h)
    ∙ or_later_assoc (lookup n m) (if n_is then some e.value else none) (last_value n es)

value_of-env_of : (n : Bytes) (m : Assoc Bytes) → value_of n (env_of m) ≡ lookup n m
unfolding env_of value_of lookup
value_of-env_of n [] = refl
value_of-env_of n ((j, w) ∷ m) = ap (λ o. if bytes_eq j n then some w else o) (value_of-env_of n m)

names_of-env_of : (m : Assoc Bytes) → names_of (env_of m) ≡ keys m
unfolding env_of keys
names_of-env_of [] = refl
names_of-env_of ((j, w) ∷ m) = ap (λ r. j ∷ r) (names_of-env_of m)

from_none : (o : Option Bytes) → or_later none o ≡ o
from_none none = refl
from_none (some v) = refl

-- The environment that `dedupeEnv` returns has each name once, and gives a name that is not empty the last
-- value that the list gives it.
pub dedupe_env-last_value :
    (es : List EnvVar)
    → IsDistinct (names_of (dedupe_env es))
      × ((n : Bytes) → n ≢ [] → value_of n (dedupe_env es) ≡ last_value n es)
unfolding dedupe_env keys lookup last_value
dedupe_env-last_value es =
    let m = env_map es [] in
    (
      subst IsDistinct (sym (names_of-env_of m)) (env_map-IsDistinct es [] tt),
      λ n h. value_of-env_of n m ∙ lookup-env_map n es [] h ∙ from_none (last_value n es),
    )

-- ===== src/Versions.antt =====
-- The order on version strings by which an update is offered (internal/update/version.go).
use openvpnd.Base.{
  ℕ, zero, suc, ◌^◌, ◌-◌, ◌≡◌, refl, Bool, true, false, ◌||◌, ◌&&◌, Option, none, some, List, [],
  ◌∷◌, ltb, ◌==◌, length, ◌>>=◌, arith, if◌then◌else◌,
}
use openvpnd.Base.Int.{ℤ, pos, negsuc, ltb_ℤ}
use openvpnd.Base.Text.{Bytes, codes, bytes_eq, bytes_eq_iff, trim_space, to_lower}
use openvpnd.Base.Decimal.{parse_uint}
use openvpnd.Base.Split.{split}

trim_prefix : ℕ → Bytes → Bytes
trim_prefix p [] = []
trim_prefix p (c ∷ s) = if c == p then s else c ∷ s

-- What stands before the first `m`, and behind it.
before : ℕ → Bytes → Bytes
before m [] = []
before m (c ∷ s) = let rest = before m s in if c == m then [] else c ∷ rest

behind : ℕ → Bytes → Bytes
behind m [] = []
behind m (c ∷ s) = let rest = behind m s in if c == m then s else rest

unfoldable pub normalize_version : Bytes → Bytes
unfolding trim_prefix before
normalize_version v = before b'+' (trim_prefix b'V' (trim_prefix b'v' (trim_space v)))

starts_dev : Bytes → Bool
starts_dev (c ∷ d ∷ e ∷ f ∷ s) = (c == b'd') && (d == b'e') && (e == b'v') && (f == b'-')
starts_dev s = false

unfoldable pub is_dev : Bytes → Bool
unfolding normalize_version starts_dev
is_dev v =
    let n = to_lower (normalize_version v) in
    (length n == 0)
    || bytes_eq n (codes "dev")
    || bytes_eq n (codes "none")
    || bytes_eq n (codes "unknown")
    || starts_dev n

-- `strconv.Atoi`; the part has no sign, since `+` and `-` are cut off before.
atoi : Bytes → Option ℕ
unfolding parse_uint
atoi s = parse_uint (2 ^ 63 - 1) s

abbrev Semver : Type 0
Semver = ℕ × ℕ × ℕ

-- At most three parts; a missing one is 0.
parse_parts : List Bytes → Option Semver
unfolding atoi
parse_parts (p ∷ []) = do a ← atoi p; some (a, 0, 0)
parse_parts (p ∷ q ∷ []) = do a ← atoi p; b ← atoi q; some (a, b, 0)
parse_parts (p ∷ q ∷ r ∷ []) = do a ← atoi p; b ← atoi q; c ← atoi r; some (a, b, c)
parse_parts ps = none

unfoldable pub parse_semver : Bytes → Option Semver
unfolding parse_parts before
parse_semver v = parse_parts (split b'.' (before b'-' v))

-- `strings.Compare`.
strings_compare : Bytes → Bytes → ℤ
strings_compare [] [] = pos 0
strings_compare [] (d ∷ t) = negsuc 0
strings_compare (c ∷ s) [] = pos 1
strings_compare (c ∷ s) (d ∷ t) =
    let rest = strings_compare s t in if ltb c d then negsuc 0 else if ltb d c then pos 1 else rest

compare_suffixes : Bytes → Bytes → ℤ
compare_suffixes s t =
    if bytes_eq s t
    then pos 0
    else if length s == 0
    then pos 1
    else if length t == 0
    then negsuc 0
    else strings_compare s t

compare_numbers : ℕ → ℕ → ℤ → ℤ
compare_numbers a b rest = if ltb a b then negsuc 0 else if ltb b a then pos 1 else rest

-- Two normalized versions, with what parsing them gave.
compare_parsed : Bytes → Bytes → Option Semver → Option Semver → ℤ
unfolding compare_numbers compare_suffixes strings_compare behind
compare_parsed s t (some p) (some q) = compare_numbers p.0 q.0 (
    compare_numbers p.1 q.1
      (compare_numbers p.2 q.2 (compare_suffixes (behind b'-' s) (behind b'-' t))))
compare_parsed s t p q = strings_compare s t

-- `CompareVersions`.
unfoldable pub compare_versions : Bytes → Bytes → ℤ
unfolding compare_parsed is_dev parse_semver
compare_versions a b =
    let s = normalize_version a in
    let t = normalize_version b in
    if is_dev a && is_dev b
    then pos 0
    else if is_dev a
    then negsuc 0
    else if is_dev b
    then pos 1
    else compare_parsed s t (parse_semver s) (parse_semver t)

-- `IsNewer`.
unfoldable pub is_newer : Bytes → Bytes → Bool
is_newer candidate current = ltb_ℤ (pos 0) (compare_versions candidate current)

-- The result for the two versions in the other order.
abbrev pub opposite : ℤ → ℤ
opposite (pos zero) = pos zero
opposite (pos (suc n)) = negsuc n
opposite (negsuc n) = pos (suc n)

strings_compare-opposite : (s t : Bytes) → strings_compare t s ≡ opposite (strings_compare s t)
unfolding strings_compare
strings_compare-opposite [] [] = refl
strings_compare-opposite [] (d ∷ t) = refl
strings_compare-opposite (c ∷ s) [] = refl
strings_compare-opposite (c ∷ s) (d ∷ t) = ground (arith, strings_compare-opposite s t)

compare_suffixes-opposite : (s t : Bytes) → compare_suffixes t s ≡ opposite (compare_suffixes s t)
unfolding compare_suffixes
compare_suffixes-opposite s t =
    ground (arith, strings_compare-opposite s t, bytes_eq_iff s t, bytes_eq_iff t s, both_empty s t)
  where
    both_empty : (s t : Bytes) → length s ≡ 0 → length t ≡ 0 → s ≡ t
    both_empty [] [] h k = refl
    both_empty [] (c ∷ t) h k = absurd (omega (arith, k))
    both_empty (c ∷ s) t h k = absurd (omega (arith, h))

compare_numbers-opposite :
    (a b : ℕ) (r s : ℤ) → s ≡ opposite r → compare_numbers b a s ≡ opposite (compare_numbers a b r)
unfolding compare_numbers
compare_numbers-opposite a b r s h = ground (arith, h)

compare_parsed-opposite :
    (s t : Bytes) (p q : Option Semver) → compare_parsed t s q p ≡ opposite (compare_parsed s t p q)
unfolding compare_parsed
compare_parsed-opposite s t (some p) (some q) = compare_numbers-opposite p.0 q.0 _ _ (
    compare_numbers-opposite p.1 q.1 _ _ (
      compare_numbers-opposite p.2 q.2 _ _
        (compare_suffixes-opposite (behind b'-' s) (behind b'-' t))))
compare_parsed-opposite s t (some p) none = strings_compare-opposite s t
compare_parsed-opposite s t none (some q) = strings_compare-opposite s t
compare_parsed-opposite s t none none = strings_compare-opposite s t

opposite_of_dev :
    (d e : Bool) (r q : ℤ)
    → q ≡ opposite r
    → (if e && d then pos 0 else if e then negsuc 0 else if d then pos 1 else q)
      ≡ opposite (if d && e then pos 0 else if d then negsuc 0 else if e then pos 1 else r)
opposite_of_dev true true r q h = refl
opposite_of_dev true false r q h = refl
opposite_of_dev false true r q h = refl
opposite_of_dev false false r q h = h

newer_not_opposite : (r : ℤ) → ltb_ℤ (pos 0) r ≡ true → ltb_ℤ (pos 0) (opposite r) ≡ false
newer_not_opposite (pos zero) h = ground arith
newer_not_opposite (pos (suc n)) h = ground arith
newer_not_opposite (negsuc n) h = ground arith

turned : (a b : Bytes) → compare_versions b a ≡ opposite (compare_versions a b)
unfolding compare_versions
turned a b =
    let s = normalize_version a in
    let t = normalize_version b in
    opposite_of_dev (is_dev a) (is_dev b) _ _
      (compare_parsed-opposite s t (parse_semver s) (parse_semver t))

-- For all strings, comparing two versions in the other order gives the opposite result, so that of two
-- versions at most one is newer than the other.
pub compare_versions-opposite :
    (a b : Bytes)
    → (compare_versions b a ≡ opposite (compare_versions a b))
      × (is_newer a b ≡ true → is_newer b a ≡ false)
unfolding is_newer
compare_versions-opposite a b =
    (turned a b, λ h. rw (turned a b) (newer_not_opposite (compare_versions a b) h))

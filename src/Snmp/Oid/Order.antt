-- ===== src/Snmp/Oid/Order.antt =====
-- `Compare`, `Equal` and `IsPrefix` against the lexicographic order on lists.
use openvpnd.Base.{
  ℕ, ◌<◌, ◌≡◌, refl, sym, ◌↔◌, ◌⊎◌, inl, inr, true, false, List, [], ◌∷◌, ◌++◌, arith, ltb, ltb→lt,
  Bool-cases, length, length-append, if◌then◌else◌,
}
use openvpnd.Base.Int.{ℤ, pos, negsuc}
use openvpnd.Snmp.Oid.{Oid, same_items, equal, compare, is_prefix, child}

-- `o` stands before `p` in the order of a MIB walk.
abbrev pub LexLt : Oid → Oid → Type 0
LexLt [] [] = ⊥
LexLt [] (y ∷ p) = Unit
LexLt (x ∷ o) [] = ⊥
LexLt (x ∷ o) (y ∷ p) = (x < y) ⊎ ((x ≡ y) × LexLt o p)

pub LexLt-trans : (o p q : Oid) → LexLt o p → LexLt p q → LexLt o q
LexLt-trans [] [] q h k = absurd h
LexLt-trans [] (y ∷ p) [] h k = absurd k
LexLt-trans [] (y ∷ p) (z ∷ q) h k = tt
LexLt-trans (x ∷ o) [] q h k = absurd h
LexLt-trans (x ∷ o) (y ∷ p) [] h k = absurd k
LexLt-trans (x ∷ o) (y ∷ p) (z ∷ q) (inl h) (inl k) = inl (omega arith)
LexLt-trans (x ∷ o) (y ∷ p) (z ∷ q) (inl h) (inr k) = inl (omega arith)
LexLt-trans (x ∷ o) (y ∷ p) (z ∷ q) (inr h) (inl k) = inl (omega arith)
LexLt-trans (x ∷ o) (y ∷ p) (z ∷ q) (inr h) (inr k) = inr (omega arith, LexLt-trans o p q h.1 k.1)

pub LexLt-irrefl : (o : Oid) → ¬ LexLt o o
LexLt-irrefl [] h = h
LexLt-irrefl (x ∷ o) (inl h) = absurd (omega arith)
LexLt-irrefl (x ∷ o) (inr h) = LexLt-irrefl o h.1

-- Every two OIDs are related one way: the trichotomy, as the code's three results.
pub data Compared (o p : Oid) : ℤ → Type 0 where
  below : LexLt o p → Compared o p (negsuc 0)
  same : o ≡ p → Compared o p (pos 0)
  above : LexLt p o → Compared o p (pos 1)

compare_cons :
    (x y : ℕ) (o p : Oid)
    → compare (x ∷ o) (y ∷ p)
      ≡ (if ltb x y then negsuc 0 else if ltb y x then pos 1 else compare o p)
unfolding compare
compare_cons x y o p = ground arith

Compared-behind :
    (x y : ℕ) (o p : Oid) {r : ℤ} → x ≡ y → Compared o p r → Compared (x ∷ o) (y ∷ p) r
Compared-behind x y o p e (below h) = below (inr (e, h))
Compared-behind x y o p e (same h) = same (cc)
Compared-behind x y o p e (above h) = above (inr (sym e, h))

eq_of_ltb : (x y : ℕ) → ltb x y ≡ false → ltb y x ≡ false → x ≡ y
eq_of_ltb x y h k = ground arith

Compared-cons :
    (x y : ℕ) (o p : Oid)
    → Compared o p (compare o p)
    → Compared
        (x ∷ o)
        (y ∷ p)
        (if ltb x y then negsuc 0 else if ltb y x then pos 1 else compare o p)
Compared-cons x y o p c = elim (Bool-cases (ltb x y)) [
  | inl less ↦ rw less (below (inl (ltb→lt x y less)))
  | inr not_less ↦ elim (Bool-cases (ltb y x)) [
    | inl more ↦ rw (not_less, more) (above (inl (ltb→lt y x more)))
    | inr not_more ↦
        rw (not_less, not_more) (Compared-behind x y o p (eq_of_ltb x y not_less not_more) c)
  ]
]

compare_nil_cons : (y : ℕ) (p : Oid) → compare [] (y ∷ p) ≡ negsuc 0
unfolding compare
compare_nil_cons y p = ground arith

compare_cons_nil : (x : ℕ) (o : Oid) → compare (x ∷ o) [] ≡ pos 1
unfolding compare
compare_cons_nil x o = ground arith

-- `Compare` returns -1, 0 or 1 as the first OID stands before, is, or stands behind the second.
pub compare-Compared : (o p : Oid) → Compared o p (compare o p)
compare-Compared [] [] = unfold compare in same refl
compare-Compared [] (y ∷ p) = rw compare_nil_cons (below tt)
compare-Compared (x ∷ o) [] = rw compare_cons_nil (above tt)
compare-Compared (x ∷ o) (y ∷ p) = rw compare_cons (Compared-cons x y o p (compare-Compared o p))

same_items_self : (o : Oid) → same_items o o ≡ true
unfolding same_items
same_items_self [] = refl
same_items_self (x ∷ o) = ground (arith, same_items_self o)

same_items-append : (o rest : Oid) → same_items o (o ++ rest) ≡ true
unfolding same_items
same_items-append [] rest = refl
same_items-append (x ∷ o) rest = ground (arith, same_items-append o rest)

same_items→append : (o p : Oid) → same_items o p ≡ true → (rest : Oid) × (p ≡ o ++ rest)
unfolding same_items
same_items→append [] p h = (p, refl)
same_items→append (x ∷ o) [] h = ground arith
same_items→append (x ∷ o) (y ∷ p) h =
    let (rest, e) = same_items→append o p (ground arith) in (rest, ground arith)

same_items→eq : (o p : Oid) → length o ≡ length p → same_items o p ≡ true → o ≡ p
unfolding same_items
same_items→eq [] [] e h = refl
same_items→eq [] (y ∷ p) e h = absurd (omega arith)
same_items→eq (x ∷ o) [] e h = absurd (omega arith)
same_items→eq (x ∷ o) (y ∷ p) e h = ground (arith, same_items→eq o p)

equal_self : (o : Oid) → equal o o ≡ true
unfolding equal
equal_self o = ground (arith, same_items_self o)

equal→eq : (o p : Oid) → equal o p ≡ true → o ≡ p
unfolding equal
equal→eq o p h = ground (arith, same_items→eq o p)

-- `Equal` decides equality.
pub equal_iff : (o p : Oid) → (equal o p ≡ true) ↔ (o ≡ p)
equal_iff o p = (equal→eq o p, λ e. rw e (equal_self p))

-- `IsPrefix` holds exactly when the second OID is a child of the first.
pub is_prefix_iff :
    (o p : Oid)
    → (is_prefix o p ≡ true → (rest : List ℕ) × (p ≡ child o rest))
      × ((rest : List ℕ) → is_prefix o (child o rest) ≡ true)
unfolding is_prefix child
is_prefix_iff o p = (
  λ h. same_items→append o p (ground arith),
  λ rest. ground (arith, same_items-append o rest, length-append o rest),
)

pub LexLt-asym : (o p : Oid) → LexLt o p → ¬ LexLt p o
LexLt-asym o p h k = LexLt-irrefl o (LexLt-trans o p o h k)

-- The three results, each with what it says.
pub compare-cases :
    (o p : Oid)
    → ((LexLt o p) × (compare o p ≡ negsuc 0))
      ⊎ (((o ≡ p) × (compare o p ≡ pos 0)) ⊎ ((LexLt p o) × (compare o p ≡ pos 1)))
compare-cases o p = go (compare-Compared o p) refl
  where
    go :
        {r : ℤ}
        → Compared o p r
        → compare o p ≡ r
        → ((LexLt o p) × (compare o p ≡ negsuc 0))
          ⊎ (((o ≡ p) × (compare o p ≡ pos 0)) ⊎ ((LexLt p o) × (compare o p ≡ pos 1)))
    go (below h) e = inl (h, e)
    go (same h) e = inr (inl (h, e))
    go (above h) e = inr (inr (h, e))

-- `o` stands before `p`, or is `p`.
abbrev pub LexLe : Oid → Oid → Type 0
LexLe o p = (o ≡ p) ⊎ LexLt o p

pub LexLe-trans : (o p q : Oid) → LexLe o p → LexLe p q → LexLe o q
LexLe-trans o p q (inl e) k = rw e k
LexLe-trans o p q (inr h) (inl e) = inr (rw e at h)
LexLe-trans o p q (inr h) (inr k) = inr (LexLt-trans o p q h k)

pub LexLt-LexLe : (o p q : Oid) → LexLt o p → LexLe p q → LexLt o q
LexLt-LexLe o p q h (inl e) = rw e at h
LexLt-LexLe o p q h (inr k) = LexLt-trans o p q h k

pub LexLe-LexLt : (o p q : Oid) → LexLe o p → LexLt p q → LexLt o q
LexLe-LexLt o p q (inl e) k = rw e k
LexLe-LexLt o p q (inr h) k = LexLt-trans o p q h k

-- Of two OIDs the first stands before the second, or not before it.
pub LexLt-or-LexLe : (o p : Oid) → LexLt o p ⊎ LexLe p o
LexLt-or-LexLe o p = go (compare-Compared o p)
  where
    go : {r : ℤ} → Compared o p r → LexLt o p ⊎ LexLe p o
    go (below h) = inl h
    go (same h) = inr (inl (sym h))
    go (above h) = inr (inr h)

pub compare_below : (o p : Oid) → LexLt o p → compare o p ≡ negsuc 0
compare_below o p h = go (compare-Compared o p) refl
  where
    go : {r : ℤ} → Compared o p r → compare o p ≡ r → compare o p ≡ negsuc 0
    go (below k) e = e
    go (same k) e = absurd (LexLt-irrefl p (rw k at h))
    go (above k) e = absurd (LexLt-asym o p h k)

pub compare_above : (o p : Oid) → LexLt p o → compare o p ≡ pos 1
compare_above o p h = go (compare-Compared o p) refl
  where
    go : {r : ℤ} → Compared o p r → compare o p ≡ r → compare o p ≡ pos 1
    go (below k) e = absurd (LexLt-asym o p k h)
    go (same k) e = absurd (LexLt-irrefl p (rw k at h))
    go (above k) e = e

pub compare_same : (o : Oid) → compare o o ≡ pos 0
compare_same o = go (compare-Compared o o) refl
  where
    go : {r : ℤ} → Compared o o r → compare o o ≡ r → compare o o ≡ pos 0
    go (below k) e = absurd (LexLt-irrefl o k)
    go (same k) e = e
    go (above k) e = absurd (LexLt-irrefl o k)

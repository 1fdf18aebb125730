-- ===== src/Snmp/Mib/Search.antt =====
-- `Get` and `GetNext` on a sorted MIB: the binary search finds the partition point.
use openvpnd.Base.{
  ℕ, zero, suc, ◌+◌, ◌-◌, ◌/◌, ◌≤◌, ◌<◌, ◌≡◌, ◌≢◌, ◌⊎◌, inl, inr, refl, sym, Bool, true, false,
  Option, none, some, [], ◌∷◌, arith, All, ltb, ltb→lt, length, get_elem?, Bool-cases,
  if◌then◌else◌,
}
use openvpnd.Base.Int.{pos, leb_ℤ}
use openvpnd.Snmp.Oid.{Oid, compare, equal}
use openvpnd.Snmp.Oid.Order.{
  LexLt, LexLe, LexLt-irrefl, LexLt-LexLe, LexLe-trans, LexLt-or-LexLe, compare_below,
  compare_above, compare_same, equal_iff,
}
use openvpnd.Snmp.Mib.{Variable, Mib, is_below, search_loop, reaches, search, if_equal, get}

pub search_loop_partition :
    (f : ℕ → Bool) (p fuel i j : ℕ)
    → i ≤ p
    → p ≤ j
    → j - i < fuel
    → ((k : ℕ) → k < p → f k ≡ false)
    → ((k : ℕ) → p ≤ k → k < j → f k ≡ true)
    → search_loop fuel f i j ≡ p
unfolding search_loop
search_loop_partition f p zero i j a b c lo hi = absurd (omega arith)
search_loop_partition f p (suc fuel) i j a b c lo hi = elim (Bool-cases (ltb i j)) [
  | inr stop ↦ rw stop (ground arith)
  | inl go ↦
      let i<j = ltb→lt i j go in
      let h = (i + j) / 2 in
      elim (Bool-cases (f h)) [
        | inl yes' ↦
            rw (go, yes')
              (search_loop_partition f p fuel i h a (ground (arith, lo h)) (omega arith) lo
                (λ k x y. hi k x (omega arith)))
        | inr no' ↦
            rw (go, no')
              (search_loop_partition f p fuel (h + 1) j (ground (arith, hi h)) b (omega arith) lo
                hi)
      ]
]

-- Each variable stands at or before all that follow it.
abbrev pub IsSorted : Mib → Type 0
IsSorted [] = Unit
IsSorted (v ∷ m) = All (λ (w : Variable). LexLe v.oid w.oid) m × IsSorted m

-- The number of leading variables before the OID.
unfoldable pub below_count : Oid → Mib → ℕ
below_count oid [] = 0
below_count oid (v ∷ m) =
    let rest = below_count oid m in if is_below (compare v.oid oid) then suc rest else 0

below_count-le : (oid : Oid) (m : Mib) → below_count oid m ≤ length m
unfolding below_count
below_count-le oid [] = omega arith
below_count-le oid (v ∷ m) = ground (arith, below_count-le oid m)

reaches_before : (oid : Oid) (m : Mib) (k : ℕ) → k < below_count oid m → reaches m oid k ≡ false
unfolding reaches below_count
reaches_before oid [] k h = absurd (omega arith)
reaches_before oid (v ∷ m) zero h = ground arith
reaches_before oid (v ∷ m) (suc k) h = ground (arith, reaches_before oid m k)

Reaching : Oid → Variable → Type 0
Reaching oid w = leb_ℤ (pos 0) (compare w.oid oid) ≡ true

reaching_of_le : (oid o : Oid) → LexLe oid o → leb_ℤ (pos 0) (compare o oid) ≡ true
reaching_of_le oid o (inl e) = rw (sym e, compare_same oid)
reaching_of_le oid o (inr h) = rw (compare_above o oid h)

reaches-All :
    (oid : Oid) (m : Mib)
    → All (λ (w : Variable). LexLe oid w.oid) m
    → (k : ℕ) → reaches m oid k ≡ true
unfolding reaches
reaches-All oid [] h k = refl
reaches-All oid (v ∷ m) h zero = reaching_of_le oid v.oid h.0
reaches-All oid (v ∷ m) h (suc k) = reaches-All oid m h.1 k

pub All-LexLe :
    (o p : Oid) (m : Mib)
    → LexLe o p
    → All (λ (w : Variable). LexLe p w.oid) m
    → All (λ (w : Variable). LexLe o w.oid) m
All-LexLe o p [] h a = tt
All-LexLe o p (w ∷ m) h a = (LexLe-trans o p w.oid h a.0, All-LexLe o p m h a.1)

pub below_count_below :
    (oid : Oid) (v : Variable) (m : Mib)
    → LexLt v.oid oid
    → below_count oid (v ∷ m) ≡ suc (below_count oid m)
unfolding below_count
below_count_below oid v m h = rw (compare_below v.oid oid h)

pub below_count_reached :
    (oid : Oid) (v : Variable) (m : Mib) → LexLe oid v.oid → below_count oid (v ∷ m) ≡ 0
unfolding below_count
below_count_reached oid v m (inl e) = rw (sym e, compare_same oid)
below_count_reached oid v m (inr h) = rw (compare_above v.oid oid h)

-- The test behind the first variable, which stands before the OID.
behind_first :
    (oid : Oid) (v : Variable) (m : Mib)
    → ((k : ℕ) → below_count oid m ≤ k → reaches m oid k ≡ true)
    → (k : ℕ) → suc (below_count oid m) ≤ k
    → reaches (v ∷ m) oid k ≡ true
unfolding reaches
behind_first oid v m ih zero h = absurd (omega arith)
behind_first oid v m ih (suc k) h = ih k (omega arith)

reaches_behind :
    (oid : Oid) (m : Mib) → IsSorted m → (k : ℕ) → below_count oid m ≤ k → reaches m oid k ≡ true
reaches_behind oid [] s k h = unfold reaches in refl
reaches_behind oid (v ∷ m) s k h = elim (LexLt-or-LexLe v.oid oid) [
  | inr reached ↦ reaches-All oid (v ∷ m) (reached, All-LexLe oid v.oid m reached s.0) k
  | inl before ↦
      behind_first oid v m (reaches_behind oid m s.1) k (rw (below_count_below oid v m before) at h)
]

-- The binary search returns the number of variables before the OID.
pub search-below_count : (oid : Oid) (m : Mib) → IsSorted m → search m oid ≡ below_count oid m
unfolding search
search-below_count oid m s =
    search_loop_partition (reaches m oid) (below_count oid m) (suc (length m)) 0 (length m)
      (omega arith) (below_count-le oid m) (omega arith) (reaches_before oid m)
      (λ k h _. reaches_behind oid m s k h)

abbrev pub Among : Variable → Mib → Type 0
Among v [] = ⊥
Among v (w ∷ m) = (v ≡ w) ⊎ Among v m

-- What `Get` promises: a variable of the MIB with this OID, or that there is none.
abbrev pub IsGet : Oid → Mib → Option Variable → Type 0
IsGet oid m none = All (λ (w : Variable). w.oid ≢ oid) m
IsGet oid m (some v) = Among v m × (v.oid ≡ oid)

-- What `GetNext` promises: the first variable behind the OID, or that none is behind it.
abbrev pub IsNext : Oid → Mib → Option Variable → Type 0
IsNext oid m none = All (λ (w : Variable). LexLe w.oid oid) m
IsNext oid m (some v) =
    Among v m × LexLt oid v.oid × All (λ (w : Variable). LexLt oid w.oid → LexLe v.oid w.oid) m

if_equal_same : (oid : Oid) (v : Variable) → v.oid ≡ oid → if_equal oid (some v) ≡ some v
unfolding if_equal
if_equal_same oid v e = rw ((equal_iff v.oid oid).1 e)

if_equal_other : (oid : Oid) (v : Variable) → v.oid ≢ oid → if_equal oid (some v) ≡ none
unfolding if_equal
if_equal_other oid v h = elim (Bool-cases (equal v.oid oid)) [
  | inl e ↦ absurd (h ((equal_iff v.oid oid).0 e))
  | inr e ↦ rw e
]

All-behind :
    (oid o : Oid) (m : Mib)
    → LexLt oid o
    → All (λ (w : Variable). LexLe o w.oid) m
    → All (λ (w : Variable). w.oid ≢ oid) m
All-behind oid o [] h a = tt
All-behind oid o (w ∷ m) h a =
    (λ e. LexLt-irrefl oid (rw e at (LexLt-LexLe oid o w.oid h a.0)), All-behind oid o m h a.1)

-- One more variable before the OID changes nothing for `Get`.
IsGet-before :
    (oid : Oid) (v : Variable) (m : Mib) (r : Option Variable)
    → LexLt v.oid oid
    → IsGet oid m r
    → IsGet oid (v ∷ m) r
IsGet-before oid v m none h g = (λ e. LexLt-irrefl oid (rw e at h), g)
IsGet-before oid v m (some w) h g = (inr g.0, g.1)

IsGet-at_partition :
    (oid : Oid) (m : Mib)
    → IsSorted m
    → IsGet oid m (if_equal oid (get_elem? m (below_count oid m)))
IsGet-at_partition oid [] s = unfold if_equal in tt
IsGet-at_partition oid (v ∷ m) s = elim (LexLt-or-LexLe v.oid oid) [
  | inl before ↦
      rw (below_count_below oid v m before)
        (IsGet-before oid v m _ before (IsGet-at_partition oid m s.1))
  | inr (inl same) ↦
      rw (below_count_reached oid v m (inl same), if_equal_same oid v (sym same))
        (inl refl, sym same)
  | inr (inr behind) ↦
      rw
        (
          below_count_reached oid v m (inr behind),
          if_equal_other oid v (λ e. LexLt-irrefl oid (rw e at behind)),
        )
        (λ e. LexLt-irrefl oid (rw e at behind), All-behind oid v.oid m behind s.0)
]

-- On a sorted MIB `Get` finds the variable with the OID exactly when there is one.
pub get-IsGet : (oid : Oid) (m : Mib) → IsSorted m → IsGet oid m (get m oid)
get-IsGet oid m s = unfold get in rw (search-below_count oid m s) (IsGet-at_partition oid m s)

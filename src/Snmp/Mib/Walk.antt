-- ===== src/Snmp/Mib/Walk.antt =====
-- `GetNext` on a sorted MIB, and the walk that a manager makes with it.
use native.Mathlib.Numerals.{add-one}
use openvpnd.Base.{
  ℕ, zero, suc, ◌<◌, ◌≡◌, ◌≢◌, inl, inr, refl, sym, ◌∙◌, ap, Option, none, some, [], ◌∷◌, ◌++◌,
  append_assoc, arith, All, length, get_elem?, drop, Bool-cases,
}
use openvpnd.Snmp.Oid.{Oid, equal}
use openvpnd.Snmp.Oid.Order.{
  LexLt, LexLe, LexLt-irrefl, LexLe-LexLt, LexLt-or-LexLe, compare_below, compare_above,
  compare_same, equal_iff,
}
use openvpnd.Snmp.Mib.{Variable, Mib, search, skip_to_above, step_over, get_next}
use openvpnd.Snmp.Mib.Search.{
  IsSorted, below_count, below_count_below, below_count_reached, search-below_count, IsNext,
}

skip_at_or_before :
    (oid : Oid) (v : Variable) (m : Mib)
    → LexLe v.oid oid
    → skip_to_above oid (v ∷ m) ≡ skip_to_above oid m
unfolding skip_to_above
skip_at_or_before oid v m (inl e) = rw (e, compare_same oid)
skip_at_or_before oid v m (inr h) = rw (compare_below v.oid oid h)

skip_behind :
    (oid : Oid) (v : Variable) (m : Mib) → LexLt oid v.oid → skip_to_above oid (v ∷ m) ≡ some v
unfolding skip_to_above
skip_behind oid v m h = rw (compare_above v.oid oid h)

skip_nil : (oid : Oid) → skip_to_above oid [] ≡ none
unfolding skip_to_above
skip_nil oid = refl

-- Dropping the variables before the OID, and the one with the OID, changes nothing.
skip_from_partition :
    (oid : Oid) (m : Mib) → skip_to_above oid (drop (below_count oid m) m) ≡ skip_to_above oid m
skip_from_partition oid [] = unfold below_count in refl
skip_from_partition oid (v ∷ m) = elim (LexLt-or-LexLe v.oid oid) [
  | inl before ↦
      rw (below_count_below oid v m before)
        (skip_from_partition oid m ∙ sym (skip_at_or_before oid v m (inr before)))
  | inr reached ↦ rw (below_count_reached oid v m reached)
]

skip_equal :
    (oid : Oid) (m : Mib) (i : ℕ) {v : Variable}
    → get_elem? m i ≡ some v
    → v.oid ≡ oid
    → skip_to_above oid (drop (suc i) m) ≡ skip_to_above oid (drop i m)
skip_equal oid [] i e h = cc
skip_equal oid (w ∷ m) zero e h = sym (skip_at_or_before oid w m (inl (cc)))
skip_equal oid (w ∷ m) (suc i) e h = skip_equal oid m i e h

skip_one_equal :
    (oid : Oid) (m : Mib) (i : ℕ)
    → skip_to_above oid (drop (step_over oid (get_elem? m i) i) m) ≡ skip_to_above oid (drop i m)
skip_one_equal oid m i = go (get_elem? m i) refl
  where
    go :
        (o : Option Variable)
        → get_elem? m i ≡ o
        → skip_to_above oid (drop (step_over oid o i) m) ≡ skip_to_above oid (drop i m)
    go none e = unfold step_over in refl
    go (some v) e = elim (Bool-cases (equal v.oid oid)) [
      | inl same ↦
          unfold step_over in
          rw (same, add-one) (skip_equal oid m i e ((equal_iff v.oid oid).0 same))
      | inr other ↦ unfold step_over in rw other
    ]

-- On a sorted MIB `GetNext` is the scan for the first variable behind the OID.
get_next-skip : (oid : Oid) (m : Mib) → IsSorted m → get_next m oid ≡ skip_to_above oid m
unfolding get_next
get_next-skip oid m s =
    skip_one_equal oid m (search m oid)
    ∙ rw (search-below_count oid m s) (skip_from_partition oid m)

All-next :
    (oid o : Oid) (m : Mib)
    → All (λ (w : Variable). LexLe o w.oid) m
    → All (λ (w : Variable). LexLt oid w.oid → LexLe o w.oid) m
All-next oid o [] a = tt
All-next oid o (w ∷ m) a = (λ _. a.0, All-next oid o m a.1)

IsNext-before :
    (oid : Oid) (v : Variable) (m : Mib) (r : Option Variable)
    → LexLe v.oid oid
    → IsNext oid m r
    → IsNext oid (v ∷ m) r
IsNext-before oid v m none h n = (h, n)
IsNext-before oid v m (some w) h n =
    (inr n.0, n.1, (λ k. absurd (LexLt-irrefl v.oid (LexLe-LexLt v.oid oid v.oid h k)), n.2))

IsNext-skip : (oid : Oid) (m : Mib) → IsSorted m → IsNext oid m (skip_to_above oid m)
IsNext-skip oid [] s = unfold skip_to_above in tt
IsNext-skip oid (v ∷ m) s = elim (LexLt-or-LexLe oid v.oid) [
  | inl behind ↦
      rw (skip_behind oid v m behind) (inl refl, behind, (λ _. inl refl, All-next oid v.oid m s.0))
  | inr before ↦
      rw (skip_at_or_before oid v m before) (IsNext-before oid v m _ before (IsNext-skip oid m s.1))
]

-- On a sorted MIB `GetNext` returns the first variable whose OID stands behind the one asked for,
-- and nothing exactly when no variable stands behind it.
pub get_next-IsNext : (oid : Oid) (m : Mib) → IsSorted m → IsNext oid m (get_next m oid)
get_next-IsNext oid m s = rw (get_next-skip oid m s) (IsNext-skip oid m s)

-- Each variable stands before all that follow it.
abbrev pub IsStrict : Mib → Type 0
IsStrict [] = Unit
IsStrict (v ∷ m) = All (λ (w : Variable). LexLt v.oid w.oid) m × IsStrict m

All-weaken :
    (o : Oid) (m : Mib)
    → All (λ (w : Variable). LexLt o w.oid) m
    → All (λ (w : Variable). LexLe o w.oid) m
All-weaken o [] a = tt
All-weaken o (w ∷ m) a = (inr a.0, All-weaken o m a.1)

pub IsStrict-IsSorted : (m : Mib) → IsStrict m → IsSorted m
IsStrict-IsSorted [] s = tt
IsStrict-IsSorted (v ∷ m) s = (All-weaken v.oid m s.0, IsStrict-IsSorted m s.1)

-- A manager's walk: it asks for the OID that it was last given, until the end of the MIB.
unfoldable pub walk : ℕ → Mib → Oid → Mib
walk zero m oid = []
walk (suc f) m oid = elim (get_next m oid) [ none ↦ [] | some v ↦ v ∷ walk f m v.oid ]

All-middle :
    (o : Oid) (pre : Mib) (v : Variable) (rest : Mib)
    → All (λ (w : Variable). LexLt o w.oid) (pre ++ v ∷ rest)
    → LexLt o v.oid
All-middle o [] v rest a = a.0
All-middle o (w ∷ pre) v rest a = All-middle o pre v rest a.1

skip-middle :
    (pre : Mib) (v : Variable) (rest : Mib)
    → IsStrict (pre ++ v ∷ rest)
    → skip_to_above v.oid (pre ++ v ∷ rest) ≡ skip_to_above v.oid rest
skip-middle [] v rest s = skip_at_or_before v.oid v rest (inl refl)
skip-middle (w ∷ pre) v rest s =
    skip_at_or_before v.oid w (pre ++ v ∷ rest) (inr (All-middle w.oid pre v rest s.0))
    ∙ skip-middle pre v rest s.1

IsStrict-suffix : (pre m : Mib) → IsStrict (pre ++ m) → IsStrict m
IsStrict-suffix [] m s = s
IsStrict-suffix (w ∷ pre) m s = IsStrict-suffix pre m s.1

walk-none : (f : ℕ) (m : Mib) (oid : Oid) → get_next m oid ≡ none → walk (suc f) m oid ≡ []
unfolding walk
walk-none f m oid e = rw (e, walk)

walk-some :
    (f : ℕ) (m : Mib) (oid : Oid) (v : Variable)
    → get_next m oid ≡ some v
    → walk (suc f) m oid ≡ v ∷ walk f m v.oid
unfolding walk
walk-some f m oid v e = rw (e, walk)

walk_rest :
    (f : ℕ) (m pre : Mib) (v : Variable) (rest : Mib)
    → m ≡ pre ++ v ∷ rest
    → IsStrict m
    → length rest < f
    → walk f m v.oid ≡ rest
walk_rest zero m pre v rest e s h = absurd (omega arith)
walk_rest (suc f) m pre v [] e s h = walk-none f m v.oid (
    get_next-skip v.oid m (IsStrict-IsSorted m s)
    ∙ rw e (skip-middle pre v [] (rw e at s))
    ∙ skip_nil v.oid)
walk_rest (suc f) m pre v (w ∷ rest) e s h =
    let behind = (IsStrict-suffix pre (v ∷ w ∷ rest) (rw e at s)).0.0 in
    walk-some f m v.oid w (
      get_next-skip v.oid m (IsStrict-IsSorted m s)
      ∙ rw e (skip-middle pre v (w ∷ rest) (rw e at s))
      ∙ skip_behind v.oid w rest behind)
    ∙ ap (λ r. w ∷ r)
        (walk_rest f m (pre ++ v ∷ []) w rest (e ∙ sym (append_assoc pre (v ∷ []) (w ∷ rest))) s
          (omega arith))

-- A walk from the empty OID lists every variable of a strictly sorted MIB in which no variable has the empty
-- OID once, in order, and ends.
pub walk_complete :
    (m : Mib) → IsStrict m → All (λ (w : Variable). w.oid ≢ []) m → walk (suc (length m)) m [] ≡ m
walk_complete [] s h = walk-none 0 [] [] (get_next-skip [] [] tt ∙ skip_nil [])
walk_complete (v ∷ m) s h =
    walk-some (length (v ∷ m)) (v ∷ m) [] v (
      get_next-skip [] (v ∷ m) (IsStrict-IsSorted (v ∷ m) s)
      ∙ skip_behind [] v m (nil_before v.oid h.0))
    ∙ ap (λ r. v ∷ r) (walk_rest (length (v ∷ m)) (v ∷ m) [] v m refl s (omega arith))
  where
    nil_before : (o : Oid) → o ≢ [] → LexLt [] o
    nil_before [] ne = absurd (ne refl)
    nil_before (x ∷ o) ne = tt

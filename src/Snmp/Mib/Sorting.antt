-- ===== src/Snmp/Mib/Sorting.antt =====
-- The MIB is built sorted, from the leaves and nothing else.
use mathlib.Core.List.{Perm}
use mathlib.Core.List.Perm
use openvpnd.Base.{◌≡◌, inl, inr, [], ◌∷◌, All}
use openvpnd.Base.Int.{ℤ}
use openvpnd.Base.Text.{Bytes}
use openvpnd.Stats.Cache.{Cache}
use openvpnd.Snmp.Oid.{Oid}
use openvpnd.Snmp.Oid.Order.{
  LexLt, LexLe, LexLt-or-LexLe, compare_below, compare_above, compare_same,
}
use openvpnd.Snmp.Mib.{
  Variable, Mib, insert_variable, sort_variables, leaves, default_base, build_mib,
}
use openvpnd.Snmp.Mib.Search.{IsSorted, All-LexLe}

insert_before :
    (v w : Variable) (m : Mib)
    → LexLt w.oid v.oid
    → insert_variable v (w ∷ m) ≡ w ∷ insert_variable v m
unfolding insert_variable
insert_before v w m h = rw (compare_below w.oid v.oid h)

insert_here : (v w : Variable) (m : Mib) → LexLe v.oid w.oid → insert_variable v (w ∷ m) ≡ v ∷ w ∷ m
unfolding insert_variable
insert_here v w m (inl e) = rw (e, compare_same w.oid)
insert_here v w m (inr h) = rw (compare_above w.oid v.oid h)

All-insert :
    (o : Oid) (v : Variable) (m : Mib)
    → LexLe o v.oid
    → All (λ (w : Variable). LexLe o w.oid) m
    → All (λ (w : Variable). LexLe o w.oid) (insert_variable v m)
All-insert o v [] h a = unfold insert_variable in (h, tt)
All-insert o v (w ∷ m) h a = elim (LexLt-or-LexLe w.oid v.oid) [
  | inl before ↦ rw (insert_before v w m before) (a.0, All-insert o v m h a.1)
  | inr here ↦ rw (insert_here v w m here) (h, a)
]

insert-IsSorted : (v : Variable) (m : Mib) → IsSorted m → IsSorted (insert_variable v m)
insert-IsSorted v [] s = unfold insert_variable in (tt, tt)
insert-IsSorted v (w ∷ m) s = elim (LexLt-or-LexLe w.oid v.oid) [
  | inl before ↦
      rw (insert_before v w m before)
        (All-insert w.oid v m (inr before) s.0, insert-IsSorted v m s.1)
  | inr here ↦ rw (insert_here v w m here) ((here, All-LexLe v.oid w.oid m here s.0), s)
]

sort-IsSorted : (m : Mib) → IsSorted (sort_variables m)
unfolding sort_variables
sort-IsSorted [] = tt
sort-IsSorted (v ∷ m) = insert-IsSorted v (sort_variables m) (sort-IsSorted m)

insert-perm : (v : Variable) (m : Mib) → Perm (insert_variable v m) (v ∷ m)
insert-perm v [] = unfold insert_variable in Perm.refl (v ∷ [])
insert-perm v (w ∷ m) = elim (LexLt-or-LexLe w.oid v.oid) [
  | inl before ↦
      rw (insert_before v w m before) (Perm.trans (Perm.cons w (insert-perm v m)) (Perm.swap v w m))
  | inr here ↦ rw (insert_here v w m here) (Perm.refl (v ∷ w ∷ m))
]

sort-perm : (m : Mib) → Perm (sort_variables m) m
unfolding sort_variables
sort-perm [] = Perm.refl []
sort-perm (v ∷ m) = Perm.trans (insert-perm v (sort_variables m)) (Perm.cons v (sort-perm m))

-- Whatever the cache holds, the MIB is sorted by OID and holds exactly the leaves.
pub build_mib-IsSorted :
    (base : Oid) (cache : Cache) (host : Bytes) (uptime : ℤ)
    → IsSorted (build_mib base cache host uptime)
      × Perm (build_mib base cache host uptime) (leaves (default_base base) cache host uptime)
unfolding build_mib
build_mib-IsSorted base cache host uptime = (
  sort-IsSorted (leaves (default_base base) cache host uptime),
  sort-perm (leaves (default_base base) cache host uptime),
)

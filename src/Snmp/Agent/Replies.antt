-- ===== src/Snmp/Agent/Replies.antt =====
-- What the bindings of a Get response say, against the sorted MIB.
use openvpnd.Base.{
  ℕ, ◌≡◌, ◌≢◌, inl, inr, refl, sym, true, Option, none, some, List, [], ◌∷◌, arith, All, Bool-cases,
}
use openvpnd.Snmp.Tag
use openvpnd.Snmp.Oid.{Oid, is_prefix, child}
use openvpnd.Snmp.Oid.Order.{is_prefix_iff, LexLe}
use openvpnd.Snmp.Value.{marker}
use openvpnd.Snmp.Pdu.{VarBind}
use openvpnd.Snmp.Mib.{Variable, Mib, get, get_next}
use openvpnd.Snmp.Mib.Search.{IsSorted, Among, IsGet, IsNext, get-IsGet}
use openvpnd.Snmp.Mib.Walk.{get_next-IsNext}
use openvpnd.Snmp.Agent.{has_prefix, answer_get, do_get, answer_next, do_get_next}

-- A variable of the MIB stands below the OID in the tree, or is at it.
abbrev pub HasBelow : Mib → Oid → Type 0
HasBelow m oid = (v : Variable) × Among v m × ((rest : List ℕ) × (v.oid ≡ child oid rest))

has_prefix→HasBelow : (m : Mib) (oid : Oid) → has_prefix m oid ≡ true → HasBelow m oid
unfolding has_prefix
has_prefix→HasBelow [] oid h = cc
has_prefix→HasBelow (v ∷ m) oid h = elim (Bool-cases (is_prefix oid v.oid)) [
  | inl e ↦ (v, inl refl, (is_prefix_iff oid v.oid).0 e)
  | inr e ↦ let (w, a, r) = has_prefix→HasBelow m oid (rw e at h) in (w, inr a, r)
]

HasBelow→has_prefix :
    (m : Mib) (oid : Oid) (v : Variable) (rest : List ℕ)
    → Among v m
    → v.oid ≡ child oid rest
    → has_prefix m oid ≡ true
unfolding has_prefix
HasBelow→has_prefix [] oid v rest a e = absurd a
HasBelow→has_prefix (w ∷ m) oid v rest (inl s) e =
    let p : is_prefix oid w.oid ≡ true = rw (sym s, e) ((is_prefix_iff oid v.oid).1 rest) in rw p
HasBelow→has_prefix (w ∷ m) oid v rest (inr a) e =
    ground (arith, HasBelow→has_prefix m oid v rest a e)

-- One binding of a Get response: the variable with the name asked for, or the mark that tells
-- whether the MIB has a variable below that name.
pub data GetAnswer (m : Mib) (oid : Oid) (r : VarBind) : Type 0 where
  found :
      (v : Variable)
      → Among v m
      → v.oid ≡ oid
      → r ≡ record { name = v.oid; value = v.value }
      → GetAnswer m oid r
  no_instance :
      All (λ (w : Variable). w.oid ≢ oid) m
      → HasBelow m oid
      → r ≡ record { name = oid; value = marker Tag.no_such_instance }
      → GetAnswer m oid r
  no_object :
      ¬ HasBelow m oid
      → r ≡ record { name = oid; value = marker Tag.no_such_object }
      → GetAnswer m oid r

-- One binding of a GetNext response.
pub data NextAnswer (m : Mib) (oid : Oid) (r : VarBind) : Type 0 where
  next :
      (v : Variable)
      → IsNext oid m (some v)
      → r ≡ record { name = v.oid; value = v.value }
      → NextAnswer m oid r
  at_end :
      All (λ (w : Variable). LexLe w.oid oid) m
      → r ≡ record { name = oid; value = marker Tag.end_of_mib_view }
      → NextAnswer m oid r

-- The bindings of a response answer those of the request one by one.
abbrev pub Answers : (Oid → VarBind → Type 0) → List VarBind → List VarBind → Type 0
Answers R [] [] = Unit
Answers R [] (r ∷ rs) = ⊥
Answers R (b ∷ bs) [] = ⊥
Answers R (b ∷ bs) (r ∷ rs) = R b.name r × Answers R bs rs

answer_get-GetAnswer :
    (m : Mib) (oid : Oid) (o : Option Variable)
    → IsGet oid m o
    → GetAnswer m oid (answer_get m oid o)
unfolding answer_get
answer_get-GetAnswer m oid (some v) g = found v g.0 g.1 refl
answer_get-GetAnswer m oid none g = elim (Bool-cases (has_prefix m oid)) [
  | inl e ↦ rw e (no_instance g (has_prefix→HasBelow m oid e) refl)
  | inr e ↦ rw e (no_object (λ h. cc (HasBelow→has_prefix m oid h.0 h.2.0 h.1 h.2.1)) refl)
]

-- On a sorted MIB a Get response answers each name by the variable of that name, by noSuchInstance
-- where there is none but the MIB has a variable below the name, and else by noSuchObject.
pub do_get-Answers :
    (m : Mib) (bs : List VarBind) → IsSorted m → Answers (GetAnswer m) bs (do_get m bs)
unfolding do_get
do_get-Answers m [] s = tt
do_get-Answers m (b ∷ bs) s =
    (answer_get-GetAnswer m b.name (get m b.name) (get-IsGet b.name m s), do_get-Answers m bs s)

answer_next-NextAnswer :
    (m : Mib) (oid : Oid) (o : Option Variable)
    → IsNext oid m o
    → NextAnswer m oid (answer_next oid o)
unfolding answer_next
answer_next-NextAnswer m oid (some v) n = next v n refl
answer_next-NextAnswer m oid none n = at_end n refl

-- On a sorted MIB a GetNext response answers each name by the first variable behind it, or by
-- endOfMibView where none is behind it.
pub do_get_next-Answers :
    (m : Mib) (bs : List VarBind) → IsSorted m → Answers (NextAnswer m) bs (do_get_next m bs)
unfolding do_get_next
do_get_next-Answers m [] s = tt
do_get_next-Answers m (b ∷ bs) s = (
  answer_next-NextAnswer m b.name (get_next m b.name) (get_next-IsNext b.name m s),
  do_get_next-Answers m bs s,
)

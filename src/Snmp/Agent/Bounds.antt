-- ===== src/Snmp/Agent/Bounds.antt =====
-- How many bindings a response holds.
use openvpnd.Base.{
  ℕ, zero, suc, ◌+◌, ◌*◌, ◌-◌, ◌≤◌, ◌≡◌, refl, ap, Option, none, some, List, [], ◌∷◌, arith, length,
  take, drop, length-append, length-take, length-drop,
}
use openvpnd.Base.Int.{ℤ, pos, negsuc}
use openvpnd.Snmp.Oid.{Oid}
use openvpnd.Snmp.Pdu.{VarBind, Pdu}
use openvpnd.Snmp.Mib.{Variable, Mib, get_next}
use openvpnd.Snmp.Agent.{
  names, do_get, do_get_next, Round, repeat_one, repeat_round, repeat_rounds, clamp_repetitions,
  clamp_non_repeaters, repeaters, do_get_bulk,
}

-- A Get answers each binding of the request by one binding.
pub length-do_get : (m : Mib) (bs : List VarBind) → length (do_get m bs) ≡ length bs
unfolding do_get
length-do_get m [] = refl
length-do_get m (b ∷ bs) = ap suc (length-do_get m bs)

pub length-do_get_next : (m : Mib) (bs : List VarBind) → length (do_get_next m bs) ≡ length bs
unfolding do_get_next
length-do_get_next m [] = refl
length-do_get_next m (b ∷ bs) = ap suc (length-do_get_next m bs)

length-names : (bs : List VarBind) → length (names bs) ≡ length bs
length-names [] = refl
length-names (b ∷ bs) = ap suc (length-names bs)

repeat_one_lengths :
    (c : Oid) (o : Option Variable) (r : Round) (n : ℕ)
    → (length r.out ≡ n) × (length r.cursors ≡ n)
    → (length (repeat_one c o r).out ≡ suc n) × (length (repeat_one c o r).cursors ≡ suc n)
unfolding repeat_one
repeat_one_lengths c none r n h = (ap suc h.0, ap suc h.1)
repeat_one_lengths c (some v) r n h = (ap suc h.0, ap suc h.1)

repeat_round_lengths :
    (m : Mib) (cs : List Oid)
    → (length (repeat_round m cs).out ≡ length cs)
      × (length (repeat_round m cs).cursors ≡ length cs)
unfolding repeat_round
repeat_round_lengths m [] = (refl, refl)
repeat_round_lengths m (c ∷ cs) =
    repeat_one_lengths c (get_next m c) (repeat_round m cs) (length cs) (repeat_round_lengths m cs)

length-repeat_rounds :
    (n : ℕ) (m : Mib) (cs : List Oid) → length (repeat_rounds n m cs) ≤ n * length cs
unfolding repeat_rounds
length-repeat_rounds zero m cs = omega arith
length-repeat_rounds (suc n) m cs =
    let r = repeat_round m cs in
    ground (
      arith,
      repeat_round_lengths m cs,
      length-append r.out (repeat_rounds n m r.cursors),
      length-repeat_rounds n m r.cursors,
    )

length-repeaters : (n : ℕ) (m : Mib) (bs : List VarBind) → length (repeaters m n bs) ≤ n * length bs
unfolding repeaters
length-repeaters n m [] = omega arith
length-repeaters n m (b ∷ bs) = omega (
  arith,
  length-repeat_rounds n m (names (b ∷ bs)),
  ap (λ (k : ℕ). n * k) (length-names (b ∷ bs)),
)

clamp_repetitions-le : (z : ℤ) → clamp_repetitions z ≤ 100
unfolding clamp_repetitions
clamp_repetitions-le (pos n) = ground arith
clamp_repetitions-le (negsuc n) = omega arith

clamp_non_repeaters-le : (z : ℤ) (n : ℕ) → clamp_non_repeaters z n ≤ n
unfolding clamp_non_repeaters
clamp_non_repeaters-le (pos k) n = ground arith
clamp_non_repeaters-le (negsuc k) n = omega arith

bulk_bound : (a r n k : ℕ) → a ≤ n → r ≤ 100 → k ≤ r * (n - a) → a + k ≤ 100 * n
bulk_bound a r n k h l e = grind arith

-- Whatever numbers a GetBulk request carries, the response holds at most a hundred bindings for each
-- binding of the request.
pub length-do_get_bulk : (m : Mib) (p : Pdu) → length (do_get_bulk m p) ≤ 100 * length p.bindings
unfolding do_get_bulk
length-do_get_bulk m p =
    let n = length p.bindings in
    let a = clamp_non_repeaters p.non_repeaters n in
    let r = clamp_repetitions p.max_repetitions in
    let within = clamp_non_repeaters-le p.non_repeaters n in
    let rest = repeaters m r (drop a p.bindings) in
    let rest_length : length rest ≤ r * (n - a) =
      rw (← length-drop a p.bindings) (length-repeaters r m (drop a p.bindings)) in
    let total =
      bulk_bound a r n (length rest) within (clamp_repetitions-le p.max_repetitions) rest_length in
    omega (
      arith,
      length-append (do_get_next m (take a p.bindings)) rest,
      length-do_get_next m (take a p.bindings),
      length-take a p.bindings,
    )

-- ===== src/Bandwidth/Moves/Classes.antt =====
-- The class ids that are remembered, and the ones to hand out next, keep their range.
use openvpnd.Base.{ℕ, ◌+◌, Option, none, some, arith, Holds, if_lem, ltb, if◌then◌else◌}
use openvpnd.Base.Text.{Bytes, bytes_eq}
use openvpnd.Base.Assoc.{Assoc, lookup, put, remove, lookup-put, lookup-remove}
use openvpnd.Bandwidth.State.{
  AppliedClient, Enforcer, clients_of, or_empty, set_clients, class_start, alloc_class_id,
}
use openvpnd.Bandwidth.Moves.{IsClassId, Move, Moves}

-- A property of every entry of a map.
abbrev Entries {ℓ κ} : {V : Type ℓ} → (V → Type κ) → Assoc V → Type κ
Entries P m = (k : Bytes) → Holds P (lookup k m)

module _ {ℓ κ} {V : Type ℓ} (P : V → Type κ) (m : Assoc V) (h : Entries P m) (k : Bytes) where
  put-Entries : (v : V) → P v → Entries P (put k v m)
  put-Entries v p j = rw lookup-put (if_lem (Holds P) (bytes_eq k j) (λ _. p) (λ _. h j))

  remove-Entries : Entries P (remove k m)
  remove-Entries j = rw lookup-remove (if_lem (Holds P) (bytes_eq k j) (λ _. tt) (λ _. h j))

abbrev ClientIsClassed : AppliedClient → Type 0
ClientIsClassed a = IsClassId a.class_id

pub record IsWellFormed (e : Enforcer) : Type 0 where
  pub remembered : (name : Bytes) → Entries ClientIsClassed (clients_of e name)
  pub upcoming : Entries IsClassId e.next_cls

abbrev ClientsAreClassed : Option (Assoc AppliedClient) → Type 0
ClientsAreClassed o = Entries ClientIsClassed (or_empty o)

clients_of-set_clients :
    (name : Bytes) (m : Assoc AppliedClient) (e : Enforcer)
    → Entries ClientIsClassed m
    → ((k : Bytes) → Entries ClientIsClassed (clients_of e k))
    → (k : Bytes) → Entries ClientIsClassed (clients_of (set_clients name m e) k)
clients_of-set_clients name m e p h k =
    rw lookup-put (if_lem ClientsAreClassed (bytes_eq name k) (λ _. p) (λ _. h k))

clients_of-remove :
    (name : Bytes) (e : Enforcer)
    → ((k : Bytes) → Entries ClientIsClassed (clients_of e k))
    → (k : Bytes) → ClientsAreClassed (lookup k (remove name e.applied))
clients_of-remove name e h k =
    rw lookup-remove
      (if_lem ClientsAreClassed (bytes_eq name k) (λ _ j. unfold lookup in tt) (λ _. h k))

class_start-IsClassId : (o : Option ℕ) → Holds IsClassId o → IsClassId (class_start o)
unfolding class_start
class_start-IsClassId none h = omega arith
class_start-IsClassId (some id) h = ground arith

-- The id that is handed out is in the range, and the next one is again.
pub alloc_class_id-IsClassId :
    (device : Bytes) (e : Enforcer)
    → IsWellFormed e
    → IsClassId (alloc_class_id device e).0 × IsWellFormed (alloc_class_id device e).1
unfolding alloc_class_id
alloc_class_id-IsClassId device e w =
    let id = class_start (lookup device e.next_cls) in
    let ok = class_start-IsClassId (lookup device e.next_cls) (w.upcoming device) in
    let next : IsClassId (if ltb 9000 (id + 1) then 10 else id + 1) = ground (arith, ok) in
    (
      ok,
      record {
        remembered = w.remembered;
        upcoming = put-Entries IsClassId e.next_cls w.upcoming device _ next;
      },
    )

module _ {name : Bytes} {W : Bytes → Type 0} where
  Move-IsWellFormed : {e f : Enforcer} → Move name W e f → IsWellFormed e → IsWellFormed f
  Move-IsWellFormed (Move.ran e c t) w = record { remembered = w.remembered; upcoming = w.upcoming }
  Move-IsWellFormed (Move.missed e bin t) w = record {
    remembered = w.remembered;
    upcoming = w.upcoming;
  }
  Move-IsWellFormed (Move.touched e) w = record {
    remembered = clients_of-set_clients name (clients_of e name) e (w.remembered name) w.remembered;
    upcoming = w.upcoming;
  }
  Move-IsWellFormed (Move.dropped e cn) w =
      let rest = remove-Entries ClientIsClassed (clients_of e name) (w.remembered name) cn in
      record {
        remembered =
            clients_of-set_clients name (remove cn (clients_of e name)) e rest w.remembered;
        upcoming = w.upcoming;
      }
  Move-IsWellFormed (Move.recorded e cn a ok i) w =
      let more = put-Entries ClientIsClassed (clients_of e name) (w.remembered name) cn a i in
      record {
        remembered = clients_of-set_clients name (put cn a (clients_of e name)) e more w.remembered;
        upcoming = w.upcoming;
      }
  Move-IsWellFormed (Move.allocated e device) w = (alloc_class_id-IsClassId device e w).1
  Move-IsWellFormed (Move.forgot e) w = record {
    remembered = clients_of-remove name e w.remembered;
    upcoming = w.upcoming;
  }
  Move-IsWellFormed (Move.device_set e d) w = record {
    remembered = w.remembered;
    upcoming = w.upcoming;
  }
  Move-IsWellFormed (Move.device_dropped e) w = record {
    remembered = w.remembered;
    upcoming = w.upcoming;
  }

  pub Moves-IsWellFormed : {e f : Enforcer} → Moves name W e f → IsWellFormed e → IsWellFormed f
  Moves-IsWellFormed Moves.here w = w
  Moves-IsWellFormed (Moves.next a s) w = Move-IsWellFormed s (Moves-IsWellFormed a w)

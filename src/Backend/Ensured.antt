-- ===== src/Backend/Ensured.antt =====
-- What `EnsureInstance` of the backend in memory leaves (internal/ovpnbackend/mock.go).
use openvpnd.Base.{
  ℕ, ◌≡◌, refl, sym, ap, ◌∙◌, Bool, true, false, inl, inr, Option, none, some, [], ◌∷◌, length,
  arith, Bool-cases, Option-cases, if_lem, if◌then◌else◌,
}
use mathlib.Core.Path.{subst}
use openvpnd.Base.Text.{Bytes, bytes_eq, bytes_eq_refl}
use openvpnd.Base.Assoc.{Assoc, lookup, put, lookup-put}
use openvpnd.Backend.{LiveInstance, DesiredInstance}
use openvpnd.Backend.Mock.{
  MockInst, Mock, down, stop_instance, ensured, ensure_instance, connect, management, is_stale,
}

put_twice : (k : Bytes) (v : MockInst) (m : Assoc MockInst) → put k v (put k v m) ≡ put k v m
unfolding put
put_twice k v [] = rw (bytes_eq_refl k) refl
put_twice k v ((j, w) ∷ m) = ground (arith, bytes_eq_refl k, put_twice k v m)

found_put : (k : Bytes) (v : MockInst) (m : Assoc MockInst) → lookup k (put k v m) ≡ some v
found_put k v m = rw (lookup-put k k v m, bytes_eq_refl k) refl

other_put :
    (k j : Bytes) (v : MockInst) (m : Assoc MockInst)
    → bytes_eq k j ≡ false
    → lookup j (put k v m) ≡ lookup j m
other_put k j v m h = rw (lookup-put k j v m, h) refl

abbrev is_running : Option LiveInstance → Bool
is_running none = false
is_running (some live) = true

-- An entry that `EnsureInstance` has made, and keeps.
abbrev IsFresh : (Bytes → Bytes) → DesiredInstance → MockInst → Type 0
IsFresh hash d mi = (mi.desired ≡ d) × (mi.live.up ≡ true)

ensured-IsFresh :
    (hash : Bytes → Bytes) (d : DesiredInstance) (n : ℕ) (found : Option MockInst)
    → IsFresh hash d (ensured hash d n found)
unfolding ensured
ensured-IsFresh hash d n none = (refl, refl)
ensured-IsFresh hash d n (some mi) = (
  refl,
  if_lem (λ (live : LiveInstance). live.up ≡ true) (is_stale hash d mi) (λ _. refl)
      (λ h. ground (arith, h)),
)

kept :
    (hash : Bytes → Bytes) (d : DesiredInstance) (k : ℕ) (mi : MockInst)
    → IsFresh hash d mi
    → ensured hash d k (some mi) ≡ mi
unfolding ensured
kept hash d k mi (e, up) =
    rw (up, e, bytes_eq_refl (hash d.conf_content), bytes_eq_refl d.binary_path) refl

ensured_again :
    (hash : Bytes → Bytes) (d : DesiredInstance) (n k : ℕ) (found : Option MockInst)
    → ensured hash d k (some (ensured hash d n found)) ≡ ensured hash d n found
ensured_again hash d n k found =
    kept hash d k (ensured hash d n found) (ensured-IsFresh hash d n found)

-- What holds after a configuration of an instance was ensured: the instance runs exactly when it is enabled.
abbrev pub Ensures : (Bytes → Bytes) → DesiredInstance → Mock → Mock → Type 0
Ensures hash d m after =
    (is_running (management d.name after) ≡ d.enabled)
    × ((name : Bytes) → bytes_eq d.name name ≡ false → management name after ≡ management name m)
    × (ensure_instance hash d after ≡ after)

-- The backend with the entry of an enabled instance.
abbrev installed : (Bytes → Bytes) → DesiredInstance → Mock → Mock
installed hash d m = record m {
  instances =
      put d.name (ensured hash d (length m.instances) (lookup d.name m.instances)) m.instances;
}

ensure_instance_enabled :
    (hash : Bytes → Bytes) (d : DesiredInstance) (m : Mock)
    → d.enabled ≡ true
    → ensure_instance hash d m ≡ installed hash d m
unfolding ensure_instance
ensure_instance_enabled hash d m h =
    ap (λ b. if b then installed hash d m else stop_instance d.name m) h

connect_up : (mi : MockInst) → mi.live.up ≡ true → is_running (connect (some mi)) ≡ true
unfolding connect
connect_up mi h = rw h refl

installed_again :
    (hash : Bytes → Bytes) (d : DesiredInstance) (m : Mock)
    → installed hash d (installed hash d m) ≡ installed hash d m
installed_again hash d m =
    let found = lookup d.name m.instances in
    let mi = ensured hash d (length m.instances) found in
    let is = put d.name mi m.instances in
    let same =
      ap (λ o. ensured hash d (length is) o) (found_put d.name mi m.instances)
      ∙ ensured_again hash d (length m.instances) (length is) found in
    ap (λ v. record m { instances = put d.name v is }) same
    ∙ ap (λ js. record m { instances = js }) (put_twice d.name mi m.instances)

put-Ensures :
    (hash : Bytes → Bytes) (d : DesiredInstance) (m : Mock)
    → d.enabled ≡ true
    → Ensures hash d m (installed hash d m)
unfolding management
put-Ensures hash d m h =
    let found = lookup d.name m.instances in
    let mi = ensured hash d (length m.instances) found in
    (
      ap (λ o. is_running (connect o)) (found_put d.name mi m.instances)
          ∙ connect_up mi ((ensured-IsFresh hash d (length m.instances) found).1)
          ∙ sym h,
      (λ name k. ap connect (other_put d.name name mi m.instances k)),
      ensure_instance_enabled hash d (installed hash d m) h ∙ installed_again hash d m,
    )

stop-Ensures :
    (hash : Bytes → Bytes) (d : DesiredInstance) (m : Mock)
    → d.enabled ≡ false
    → Ensures hash d m (ensure_instance hash d m)
unfolding ensure_instance stop_instance management connect
stop-Ensures hash d m h = elim (Option-cases (lookup d.name m.instances)) [
  | inl e ↦ rw (h, e, e) (refl, (λ name k. refl), refl)
  | inr (mi, e) ↦
      rw (h, e, found_put d.name (down mi) m.instances, put_twice d.name (down mi) m.instances)
        (refl, (λ name k. ap connect (other_put d.name name (down mi) m.instances k)), refl)
]

-- After a configuration was ensured in the backend in memory, the instance can be reached exactly when it is
-- enabled, every other instance can be reached as before, and ensuring the same again changes nothing, so
-- that the process keeps its id and its clients.
pub ensure_instance-Ensures :
    (hash : Bytes → Bytes) (d : DesiredInstance) (m : Mock)
    → Ensures hash d m (ensure_instance hash d m)
ensure_instance-Ensures hash d m = elim (Bool-cases d.enabled) [
  | inl h ↦
      subst (λ after. Ensures hash d m after) (sym (ensure_instance_enabled hash d m h))
        (put-Ensures hash d m h)
  | inr h ↦ stop-Ensures hash d m h
]

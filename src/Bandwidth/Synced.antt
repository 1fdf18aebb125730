-- ===== src/Bandwidth/Synced.antt =====
-- What is remembered after `Sync` and after `ClearInstance`.
use mathlib.Core.Path.{subst}
use mathlib.Core.Logic.{◌⊎◌}
use openvpnd.Base.{
  ◌≡◌, inl, inr, refl, Bool, true, false, Option, none, some, List, [], ◌∷◌, not, ◌&&◌, ◌||◌,
  if_lem, if◌then◌else◌, arith, ltb, length, Bool-cases,
}
use openvpnd.Base.Text.{Bytes, bytes_eq, bytes_eq_iff, bytes_eq_refl, trim_space}
use openvpnd.Base.Assoc.{Assoc, lookup, remove, keys, lookup-put, lookup-remove}
use openvpnd.Base.Sort.{sort_strings, member, member-sort_strings}
use openvpnd.Bandwidth.Plan.{ClientLimit, remove_rules, needs_shaping, is_empty}
use openvpnd.Bandwidth.State.{
  Runner, AppliedClient, AppliedDevice, Enforcer, clients_of, set_clients, is_silent,
  alloc_class_id,
}
use openvpnd.Bandwidth.Devices.{clear_found, clear_device}
use openvpnd.Bandwidth.Enforcer.{
  remove_found, remove_client, want, want_all, desired, present, stale, ensure_instance,
  remove_each, sync, clear_instance,
}
use openvpnd.Bandwidth.Moves.{Move, Moves}
use openvpnd.Bandwidth.Moves.Classes.{IsWellFormed, Moves-IsWellFormed}
use openvpnd.Bandwidth.Moves.Operations.{ensure_instance-Moves, remove_each-Moves}
use openvpnd.Bandwidth.Moves.Kept.{run_rules-BooksAreKept}
use openvpnd.Bandwidth.Moves.Wanted.{IsIn, apply_each-Moves, desired-IsNamed}

-- Every remembered client of the instance is in `W`.
abbrev pub Covered : Bytes → (Bytes → Type 0) → Enforcer → Type 0
Covered name W e = (cn : Bytes) → present (lookup cn (clients_of e name)) ≡ true → W cn

present-remove {ℓ} :
    {V : Type ℓ} (cn k : Bytes) (m : Assoc V)
    → present (lookup k (remove cn m)) ≡ true
    → present (lookup k m) ≡ true
present-remove cn k m h = go (bytes_eq cn k) (rw lookup-remove at h)
  where
    go : (b : Bool) → present (if b then none else lookup k m) ≡ true → present (lookup k m) ≡ true
    go true h = absurd (cc)
    go false h = h

clients_of_set :
    (name : Bytes) (m : Assoc AppliedClient) (e : Enforcer)
    → clients_of (set_clients name m e) name ≡ m
clients_of_set name m e = rw (lookup-put, bytes_eq_refl) refl

clients_of_removed : (name : Bytes) (e : Enforcer) → lookup name (remove name e.applied) ≡ none
clients_of_removed name e = rw (lookup-remove, bytes_eq_refl) refl

module _ {name : Bytes} {W : Bytes → Type 0} where
  Move-Covered : {e f : Enforcer} → Move name W e f → Covered name W e → Covered name W f
  unfolding lookup
  Move-Covered (Move.ran e c t) h = h
  Move-Covered (Move.missed e bin t) h = h
  Move-Covered (Move.touched e) h = λ cn p. h cn (rw clients_of_set at p)
  Move-Covered (Move.dropped e cn) h =
      λ k p. h k (present-remove cn k (clients_of e name) (rw clients_of_set at p))
  Move-Covered (Move.recorded e cn a w i) h = λ k p. elim (Bool-cases (bytes_eq cn k)) [
    | inl same ↦ subst W ((bytes_eq_iff cn k).0 same) w
    | inr other ↦ h k (rw (clients_of_set, lookup-put, other) at p)
  ]
  Move-Covered (Move.allocated e device) h = unfold alloc_class_id in h
  Move-Covered (Move.forgot e) h = λ k p. absurd (cc (rw clients_of_removed at p))
  Move-Covered (Move.device_set e d) h = h
  Move-Covered (Move.device_dropped e) h = h

  pub Moves-Covered : {e f : Enforcer} → Moves name W e f → Covered name W e → Covered name W f
  Moves-Covered Moves.here h = h
  Moves-Covered (Moves.next a s) h = Move-Covered s (Moves-Covered a h)

module _ (runner : Runner) (name : Bytes) where
  remove_found-lookup :
      (cn j : Bytes) (e : Enforcer) (o : Option AppliedClient)
      → lookup cn (clients_of e name) ≡ o
      → lookup j (clients_of (remove_found runner name cn e o) name)
        ≡ (if bytes_eq cn j then none else lookup j (clients_of e name))
  unfolding remove_found
  remove_found-lookup cn j e none h = elim (Bool-cases (bytes_eq cn j)) [
    | inl same ↦ rw same (rw ((bytes_eq_iff cn j).0 same) at h)
    | inr other ↦ rw other
  ]
  remove_found-lookup cn j e (some prev) h =
      let e1 = set_clients name (remove cn (clients_of e name)) e in
      let kept = run_rules-BooksAreKept runner true (remove_rules prev.rules) e1 in
      rw (kept.applied, lookup-put, bytes_eq_refl, lookup-remove)

  remove_each-lookup :
      (cns : List Bytes) (j : Bytes) (e : Enforcer)
      → lookup j (clients_of (remove_each runner name cns e) name)
        ≡ (if member j cns then none else lookup j (clients_of e name))
  unfolding remove_each member remove_client
  remove_each-lookup [] j e = refl
  remove_each-lookup (cn ∷ cns) j e =
      let first = remove_found-lookup cn j e (lookup cn (clients_of e name)) refl in
      let rest = remove_each-lookup cns j (remove_client runner name cn e) in
      ground (arith, first, rest)

member-stale :
    (m : Assoc ClientLimit) (cns : List Bytes) (j : Bytes)
    → member j (stale m cns) ≡ (member j cns && not (present (lookup j m)))
unfolding member stale
member-stale m [] j = refl
member-stale m (cn ∷ cns) j = ground (arith, member-stale m cns j, bytes_eq_iff cn j)

member-keys {ℓ} : {V : Type ℓ} (m : Assoc V) (j : Bytes) → member j (keys m) ≡ present (lookup j m)
unfolding member keys lookup
member-keys [] j = refl
member-keys ((k, v) ∷ m) j = ground (arith, member-keys m j)

-- After the removals, every remembered client is desired.
removed-Covered :
    (runner : Runner) (name : Bytes) (m : Assoc ClientLimit) (e : Enforcer)
    → Covered name
        (IsIn m)
        (remove_each runner name (sort_strings (stale m (keys (clients_of e name)))) e)
removed-Covered runner name m e cn p =
    let cns = stale m (keys (clients_of e name)) in
    ground (
      arith,
      p,
      remove_each-lookup runner name (sort_strings cns) cn e,
      member-sort_strings cn cns,
      member-stale m (keys (clients_of e name)) cn,
      member-keys (clients_of e name) cn,
    )

-- A client of the list to shape: named `cn`, with a static address and a positive limit.
abbrev pub Shapes : List ClientLimit → Bytes → Type 0
Shapes [] cn = ⊥
Shapes (c ∷ cs) cn =
    ((trim_space c.common_name ≡ cn)
      × (is_empty cn ≡ false)
      × (needs_shaping c.static_ip c.rx_bps c.tx_bps ≡ true))
    ⊎ Shapes cs cn

want_sound :
    (c : ClientLimit) (m : Assoc ClientLimit) (cn : Bytes)
    → IsIn (want c m) cn
    → IsIn m cn ⊎ Shapes (c ∷ []) cn
unfolding want
want_sound c m cn h =
    elim (Bool-cases
      (is_empty (trim_space c.common_name) || not (needs_shaping c.static_ip c.rx_bps c.tx_bps))) [
        | inl off ↦ inl (rw off at h)
        | inr on ↦ elim (Bool-cases (bytes_eq (trim_space c.common_name) cn)) [
          | inl same ↦
              let e = (bytes_eq_iff (trim_space c.common_name) cn).0 same in
              inr (inl (e, ground (arith, on, e), ground (arith, on)))
          | inr other ↦ inl (rw (on, lookup-put, other) at h)
        ]
      ]

want_all_sound :
    (cs : List ClientLimit) (m : Assoc ClientLimit) (cn : Bytes)
    → IsIn (want_all cs m) cn
    → IsIn m cn ⊎ Shapes cs cn
unfolding want_all
want_all_sound [] m cn h = inl h
want_all_sound (c ∷ cs) m cn h = elim (want_all_sound cs (want c m) cn h) [
  | inr s ↦ inr (inr s)
  | inl k ↦ elim (want_sound c m cn k) [
    | inl old ↦ inl old
    | inr (inl now) ↦ inr (inl now)
    | inr (inr nothing) ↦ absurd nothing
  ]
]

desired_sound : (cs : List ClientLimit) (cn : Bytes) → IsIn (desired cs) cn → Shapes cs cn
unfolding desired lookup
desired_sound cs cn h = elim (want_all_sound cs [] cn h) [
  | inl nothing ↦ absurd (cc nothing)
  | inr s ↦ s
]

synced :
    (runner : Runner) (name device : Bytes) (clients : List ClientLimit) (e : Enforcer)
    → IsWellFormed e
    → is_silent e.mode ≡ false
    → Covered name (IsIn (desired clients)) (sync runner name device clients e)
unfolding sync
synced runner name device clients e w loud =
    let m = desired clients in
    let e1 = ensure_instance name e in
    let cns = sort_strings (stale m (keys (clients_of e1 name))) in
    let e2 = remove_each runner name cns e1 in
    let start = ensure_instance-Moves runner name (IsIn m) e in
    let w2 =
      Moves-IsWellFormed (remove_each-Moves runner name (IsIn m) cns e1)
        (Moves-IsWellFormed start w) in
    let clean = removed-Covered runner name m e1 in
    let P : Enforcer → Type 0 = λ f. Covered name (IsIn m) f in
    if_lem P (is_silent e.mode) (λ h. absurd (cc))
      λ _.
        if_lem P (is_empty (trim_space device) && ltb 0 (length m)) (λ _. clean)
          λ _.
            Moves-Covered
              (apply_each-Moves runner name (trim_space device) m (desired-IsNamed clients)
                (sort_strings (keys m)) e2 w2)
              clean

-- In mode `tc` or `log` and with well-formed class ids, whatever the host answers, every client that is
-- remembered for an instance after `Sync` is in the list that `Sync` was given, under its trimmed and
-- non-empty name, with a static address and a positive limit.
pub sync-Covered :
    (runner : Runner) (name device : Bytes) (clients : List ClientLimit) (e : Enforcer)
    → IsWellFormed e
    → is_silent e.mode ≡ false
    → Covered name (Shapes clients) (sync runner name device clients e)
sync-Covered runner name device clients e w loud cn p =
    desired_sound clients cn (synced runner name device clients e w loud cn p)

clear_found-device :
    (runner : Runner) (name : Bytes) (e : Enforcer) (o : Option AppliedDevice)
    → lookup name e.devices ≡ o
    → lookup name (clear_found runner name e o).devices ≡ none
unfolding clear_found
clear_found-device runner name e none h = h
clear_found-device runner name e (some prev) h =
    let e1 = record e { devices = remove name e.devices } in
    let kept = run_rules-BooksAreKept runner true (remove_rules prev.rules) e1 in
    rw (kept.devices, lookup-remove, bytes_eq_refl) refl

-- After `ClearInstance` the instance has neither clients nor a device, whatever the host answers.
pub clear_instance-empty :
    (runner : Runner) (name : Bytes) (e : Enforcer)
    → (lookup name (clear_instance runner name e).applied ≡ none)
      × (lookup name (clear_instance runner name e).devices ≡ none)
unfolding clear_instance clear_device
clear_instance-empty runner name e =
    let e1 = remove_each runner name (sort_strings (keys (clients_of e name))) e in
    (
      clients_of_removed name (clear_device runner name e1),
      clear_found-device runner name e1 (lookup name e1.devices) refl,
    )

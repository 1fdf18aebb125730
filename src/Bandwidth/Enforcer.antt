-- ===== src/Bandwidth/Enforcer.antt =====
-- The per-client part of the enforcer (internal/bandwidth/enforcer.go). An operation runs alone, as
-- under the reconciler's lock.
use openvpnd.Base.{
  ℕ, Bool, true, false, not, ◌&&◌, ◌||◌, Option, none, some, List, [], ◌∷◌, ltb, ◌==◌, length,
  if◌then◌else◌,
}
use openvpnd.Base.Text.{Bytes, codes, bytes_eq, trim_space}
use openvpnd.Base.Assoc.{Assoc, lookup, put, remove, keys}
use openvpnd.Bandwidth.Plan.{
  ClientLimit, Rule, plan, apply_rules, remove_rules, needs_shaping, is_empty,
}
use openvpnd.Base.Sort.{sort_strings}
use openvpnd.Bandwidth.Devices.{clear_device}
use openvpnd.Bandwidth.State.{
  Runner, AppliedClient, Enforcer, Outcome, clients_of, set_clients, is_tc, is_silent, run_rules,
  bin_available, alloc_class_id, same_ℤ,
}

-- `Remove`; a failed undo is only logged.
unfoldable pub remove_found : Runner → Bytes → Bytes → Enforcer → Option AppliedClient → Enforcer
remove_found runner name cn e none = e
remove_found runner name cn e (some prev) =
    (run_rules runner true (remove_rules prev.rules)
      (set_clients name (remove cn (clients_of e name)) e)).1

unfoldable pub remove_client : Runner → Bytes → Bytes → Enforcer → Enforcer
unfolding remove_found
remove_client runner name cn e = remove_found runner name cn e (lookup cn (clients_of e name))

-- The map of an instance is made when it is missing.
unfoldable pub ensured : Bytes → Enforcer → Option (Assoc AppliedClient) → Enforcer
ensured name e none = set_clients name [] e
ensured name e (some m) = e

unfoldable pub ensure_instance : Bytes → Enforcer → Enforcer
unfolding ensured
ensure_instance name e = ensured name e (lookup name e.applied)

unfoldable pub is_unchanged : AppliedClient → Bytes → ClientLimit → Bool
is_unchanged prev device c =
    bytes_eq prev.static_ip c.static_ip
    && same_ℤ prev.rx_bps c.rx_bps
    && same_ℤ prev.tx_bps c.tx_bps
    && bytes_eq prev.device device

abbrev pub applied_client : Bytes → ClientLimit → ℕ → List Rule → AppliedClient
applied_client device c class_id rules = record {
  static_ip = c.static_ip;
  rx_bps = c.rx_bps;
  tx_bps = c.tx_bps;
  class_id = class_id;
  device = device;
  rules = rules;
}

-- The rules ran; only then is the client remembered.
unfoldable pub remember_client : Bytes → ClientLimit → AppliedClient → Outcome → Outcome
remember_client name c a (false, e) = (false, e)
remember_client name c a (true, e) =
    (true, set_clients name (put c.common_name a (clients_of e name)) e)

-- `Apply` from the plan on. In mode `tc` the binary is looked for first.
unfoldable pub install : Runner → Bytes → Bytes → ClientLimit → ℕ → Enforcer → Outcome
unfolding remember_client bin_available
install runner name device c class_id e =
    let rules = plan (record {
      device = device;
      static_ip = c.static_ip;
      rx_bps = c.rx_bps;
      tx_bps = c.tx_bps;
      class_id = class_id;
    }) in
    let (present, looked) = bin_available runner (codes "tc") e in
    let run = λ (at : Enforcer).
      remember_client name c (applied_client device c class_id rules)
        (run_rules runner false (apply_rules rules) at) in
    if length rules == 0
    then (true, e)
    else if is_tc e.mode
    then (if present then run looked else (true, looked))
    else run e

unfoldable pub apply_over :
    Runner → Bytes → Bytes → ClientLimit → Enforcer → Option AppliedClient → Outcome
unfolding install alloc_class_id
apply_over runner name device c e none =
    let (class_id, e1) = alloc_class_id device e in install runner name device c class_id e1
apply_over runner name device c e (some prev) =
    if is_unchanged prev device c
    then (true, e)
    else install runner name device c prev.class_id
        (run_rules runner true (remove_rules prev.rules) e).1

-- `Apply`.
unfoldable pub apply : Runner → Bytes → Bytes → ClientLimit → Enforcer → Outcome
unfolding apply_over needs_shaping ensure_instance
apply runner name device c e =
    let e1 = ensure_instance name e in
    let dev = trim_space device in
    if is_silent e.mode
    then (true, e)
    else if not (needs_shaping c.static_ip c.rx_bps c.tx_bps)
    then (true, remove_client runner name c.common_name e)
    else if is_empty dev
    then (false, e)
    else apply_over runner name dev c e1 (lookup c.common_name (clients_of e1 name))

-- The clients to shape, by their trimmed name; the last of one name counts.
unfoldable pub want : ClientLimit → Assoc ClientLimit → Assoc ClientLimit
unfolding needs_shaping
want c m =
    let cn = trim_space c.common_name in
    if is_empty cn || not (needs_shaping c.static_ip c.rx_bps c.tx_bps)
    then m
    else put cn (record c { common_name = cn; static_ip = trim_space c.static_ip }) m

unfoldable pub want_all : List ClientLimit → Assoc ClientLimit → Assoc ClientLimit
unfolding want
want_all [] m = m
want_all (c ∷ cs) m = want_all cs (want c m)

unfoldable pub desired : List ClientLimit → Assoc ClientLimit
unfolding want_all
desired cs = want_all cs []

abbrev pub present {ℓ} : {A : Type ℓ} → Option A → Bool
present none = false
present (some a) = true

unfoldable pub stale : Assoc ClientLimit → List Bytes → List Bytes
stale m [] = []
stale m (cn ∷ cns) = let rest = stale m cns in if present (lookup cn m) then rest else cn ∷ rest

unfoldable pub remove_each : Runner → Bytes → List Bytes → Enforcer → Enforcer
remove_each runner name [] e = e
remove_each runner name (cn ∷ cns) e = remove_each runner name cns (remove_client runner name cn e)

unfoldable pub apply_wanted : Runner → Bytes → Bytes → Option ClientLimit → Enforcer → Enforcer
apply_wanted runner name device none e = e
apply_wanted runner name device (some c) e = (apply runner name device c e).1

-- A failed `Apply` is only logged.
unfoldable pub apply_each :
    Runner → Bytes → Bytes → Assoc ClientLimit → List Bytes → Enforcer → Enforcer
unfolding apply_wanted
apply_each runner name device m [] e = e
apply_each runner name device m (cn ∷ cns) e =
    apply_each runner name device m cns (apply_wanted runner name device (lookup cn m) e)

-- `Sync`. It returns no error.
unfoldable pub sync : Runner → Bytes → Bytes → List ClientLimit → Enforcer → Enforcer
unfolding desired stale remove_each apply_each ensure_instance
sync runner name device clients e =
    let m = desired clients in
    let e1 = ensure_instance name e in
    let e2 = remove_each runner name (sort_strings (stale m (keys (clients_of e1 name)))) e1 in
    let dev = trim_space device in
    if is_silent e.mode
    then e
    else if is_empty dev && ltb 0 (length m)
    then e2
    else apply_each runner name dev m (sort_strings (keys m)) e2

-- `ClearInstance`.
unfoldable pub clear_instance : Runner → Bytes → Enforcer → Enforcer
unfolding remove_each
clear_instance runner name e =
    let e1 = remove_each runner name (sort_strings (keys (clients_of e name))) e in
    let e2 = clear_device runner name e1 in record e2 { applied = remove name e2.applied }

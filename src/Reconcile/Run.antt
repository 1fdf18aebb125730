-- ===== src/Reconcile/Run.antt =====
-- A pass over all instances (`run` in internal/reconcile/reconciler.go).
use openvpnd.Base.{none, some, List, [], ◌∷◌, if◌then◌else◌}
use openvpnd.Base.Text.{Bytes, codes}
use openvpnd.Base.Sort.{member}
use openvpnd.Models.{Instance}
use openvpnd.Bandwidth.State.{Runner}
use openvpnd.Bandwidth.Enforcer.{clear_instance}
use openvpnd.Backend.{LiveInstance}
use openvpnd.Reconcile.{Config, Answers, Event, Call, Reconciler, add_event, call, update_instance}
use openvpnd.Reconcile.Observed.{listed}
use openvpnd.Reconcile.Pass.{Outcome, apply_instance}

abbrev pub error_event : Bytes → Bytes → Event
error_event name error = record {
  level = codes "error";
  kind = codes "reconcile";
  instance_name = name;
  client_cn = [];
  message = error;
}

abbrev pub after_apply : Instance → Outcome → Reconciler
after_apply inst (none, r) = r
after_apply inst (some error, r) = add_event (error_event inst.name error) (
    update_instance inst.name
      (λ i. record i {
        pid = inst.pid;
        last_error = error;
        last_rx_bytes = inst.last_rx_bytes;
        last_tx_bytes = inst.last_tx_bytes;
        connected_clients = inst.connected_clients;
      })
      r)

unfoldable pub apply_all : Runner → Config → Answers → List Instance → Reconciler → Reconciler
unfolding apply_instance
apply_all runner cfg answers [] r = r
apply_all runner cfg answers (inst ∷ is) r =
    apply_all runner cfg answers is (after_apply inst (apply_instance runner cfg answers inst r))

abbrev pub instance_names : List Instance → List Bytes
instance_names [] = []
instance_names (i ∷ is) = i.name ∷ instance_names is

-- Live instances that no row names are removed, and their limits with them.
unfoldable pub remove_orphans : Runner → List Bytes → List LiveInstance → Reconciler → Reconciler
unfolding clear_instance
remove_orphans runner names [] r = r
remove_orphans runner names (l ∷ ls) r =
    let removed = call (Call.remove l.name) r in
    remove_orphans runner names ls (
      if member l.name names
      then r
      else record removed { bw = clear_instance runner l.name removed.bw })

-- `run`, when the instances can be listed; its result is then always nil.
unfoldable pub run : Runner → Config → Answers → Reconciler → Reconciler
unfolding apply_all remove_orphans
run runner cfg answers r =
    let instances = r.store.instances in
    remove_orphans runner (instance_names instances) (listed answers)
      (apply_all runner cfg answers instances r)

-- The passes of `Loop`, one for each tick.
unfoldable pub passes : Runner → Config → List Answers → Reconciler → Reconciler
unfolding run
passes runner cfg [] r = r
passes runner cfg (answers ∷ more) r = passes runner cfg more (run runner cfg answers r)

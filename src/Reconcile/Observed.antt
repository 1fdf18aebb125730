-- ===== src/Reconcile/Observed.antt =====
-- What a pass sees of an instance that the backend was handed, and records of it (`applyInstance` in
-- internal/reconcile/reconciler.go).
use openvpnd.Base.{
  ℕ, Bool, true, false, ◌&&◌, ◌||◌, Option, none, some, List, [], ◌∷◌, length, if◌then◌else◌,
}
use openvpnd.Base.Int.{ℤ, pos}
use openvpnd.Base.Text.{Bytes, bytes_eq}
use openvpnd.Base.Assoc.{lookup}
use openvpnd.Models.{Instance, Client}
use openvpnd.Stats.Cache.{InstanceStats, set_instance}
use openvpnd.Bandwidth.State.{Runner}
use openvpnd.Backend.{LiveInstance}
use openvpnd.Reconcile.{Answers, Sample, Management, Reconciler, remember, update_instance}
use openvpnd.Reconcile.Shape.{shape}
use openvpnd.Reconcile.Edges.{peer_edges, instance_edge}
use openvpnd.Reconcile.Sampling.{
  Counters, counters_from, still, raw_counters, sample_clients, seconds,
}

-- What a pass has seen of an instance.
pub record Seen : Type 0 where
  pub up : Bool
  pub pid : ℤ
  pub counters : Counters
  pub clients : ℕ
  pub last_error : Bytes

abbrev pub unseen : Instance → Bytes → Seen
unseen inst error = record {
  up = false;
  pid = pos 0;
  counters = still inst.last_rx_bytes inst.last_tx_bytes;
  clients = 0;
  last_error = error;
}

abbrev sample_at : Answers → ℤ × ℤ → Sample
sample_at answers (rx, tx) = record { rx = rx; tx = tx; at = answers.now }

-- The management interface has answered: the instance's counters, the edges, and the clients.
unfoldable pub sample_live :
    Answers → Instance → List Client → LiveInstance → Reconciler → Seen × Reconciler
unfolding raw_counters peer_edges sample_clients
sample_live answers inst clients st r =
    let s = sample_at answers (raw_counters answers inst (st.rx_bytes, st.tx_bytes)) in
    let n =
      counters_from (lookup inst.name r.prev_sample) inst.last_rx_bytes inst.last_tx_bytes s in
    let edged = peer_edges inst.name st.clients (remember inst.name s r) in
    (
      record { up = true; pid = pos 0; counters = n; clients = length st.clients; last_error = [] },
      (sample_clients answers inst.name st.clients clients edged).1,
    )

-- The last live instance of the name that is up.
unfoldable pub find_up : Bytes → List LiveInstance → Option LiveInstance
find_up name [] = none
find_up name (l ∷ ls) = elim (find_up name ls) [
  | some m ↦ some m
  | none ↦ if bytes_eq l.name name && l.up then some l else none
]

abbrev pub or_none_live : Option (List LiveInstance) → List LiveInstance
or_none_live none = []
or_none_live (some ls) = ls

abbrev pub listed : Answers → List LiveInstance
listed answers = or_none_live answers.list_live

abbrev without_rates : Counters → Counters
without_rates n = still n.rx n.tx

abbrev pub sample_up : Answers → Instance → LiveInstance → Reconciler → Seen × Reconciler
sample_up answers inst l r =
    let s = sample_at answers (raw_counters answers inst (l.rx_bytes, l.tx_bytes)) in
    let n =
      counters_from (lookup inst.name r.prev_sample) inst.last_rx_bytes inst.last_tx_bytes s in
    (
      record { up = true; pid = l.pid; counters = without_rates n; clients = 0; last_error = [] },
      remember inst.name s r,
    )

abbrev pub sample_found :
    Answers → Instance → Bytes → Option LiveInstance → Reconciler → Seen × Reconciler
sample_found answers inst error none r = (unseen inst error, r)
sample_found answers inst error (some l) r = sample_up answers inst l r

-- The management interface cannot be reached: the counters of the live list.
unfoldable pub sample_listed : Answers → Instance → Bytes → Reconciler → Seen × Reconciler
unfolding find_up raw_counters
sample_listed answers inst error r =
    sample_found answers inst error
      (find_up inst.name (or_none_live (answers.list_sampling inst.name))) r

-- By the answer of the management interface.
unfoldable pub sample_managed :
    Answers → Instance → List Client → Management → Reconciler → Seen × Reconciler
unfolding sample_live sample_listed
sample_managed answers inst clients (Management.live st) r = sample_live answers inst clients st r
sample_managed answers inst clients (Management.no_status e) r = (unseen inst e, r)
sample_managed answers inst clients (Management.unreachable e) r = sample_listed answers inst e r

unfoldable pub sample_instance : Answers → Instance → List Client → Reconciler → Seen × Reconciler
unfolding sample_managed
sample_instance answers inst clients r =
    if inst.enabled
    then sample_managed answers inst clients (answers.management inst.name) r
    else (unseen inst [], r)

-- The process id and whether the process is up, by the live list.
unfoldable pub see_listed : Bytes → List LiveInstance → Seen → Seen
see_listed name [] seen = seen
see_listed name (l ∷ ls) seen =
    see_listed name ls
      (if bytes_eq l.name name then record seen { pid = l.pid; up = l.up || seen.up } else seen)

abbrev pub runtime : Seen → Instance → Instance
runtime seen inst = record inst {
  pid = seen.pid;
  last_error = seen.last_error;
  last_rx_bytes = seen.counters.rx;
  last_tx_bytes = seen.counters.tx;
  connected_clients = seen.clients;
}

abbrev pub instance_stats : Answers → Instance → Seen → InstanceStats
instance_stats answers inst seen = record {
  name = inst.name;
  role = inst.role;
  up = seen.up && inst.enabled;
  pid = seen.pid;
  port = inst.port;
  connected_clients = pos seen.clients;
  rx_bytes = seen.counters.rx;
  tx_bytes = seen.counters.tx;
  rx_bps = seen.counters.rx_bps;
  tx_bps = seen.counters.tx_bps;
  last_error = seen.last_error;
  updated_at = seconds answers.now;
}

-- What is recorded of an instance, and its edge.
unfoldable pub record_instance : Answers → Instance → Seen → Reconciler → Reconciler
unfolding instance_edge
record_instance answers inst seen r =
    let written = update_instance inst.name (runtime seen) r in
    instance_edge inst.name (seen.up && inst.enabled)
      (record written { cache = set_instance written.cache (instance_stats answers inst seen) })

-- The instance has been handed to the backend: its limits, its counters, and the records.
unfoldable pub observe : Runner → Answers → Instance → List Client → Reconciler → Reconciler
unfolding shape sample_instance see_listed record_instance
observe runner answers inst clients r =
    let shaped = record r { bw = shape runner inst clients r.bw } in
    let sampled = sample_instance answers inst clients shaped in
    record_instance answers inst
      (see_listed inst.name (or_none_live (answers.list_recording inst.name)) (sampled.0))
      (sampled.1)

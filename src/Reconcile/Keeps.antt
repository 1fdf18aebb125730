-- ===== src/Reconcile/Keeps.antt =====
-- The parts of a pass that leave the enforcer (internal/reconcile/reconciler.go).
use openvpnd.Base.{
  ◌≡◌, refl, ◌∙◌, Bool, true, ◌&&◌, Option, none, some, List, [], ◌∷◌, if_lem, if◌then◌else◌,
}
use openvpnd.Base.Text.{Bytes}
use openvpnd.Base.Sort.{member}
use openvpnd.Base.Assoc.{lookup}
use openvpnd.Models.{Instance, Client}
use openvpnd.Policy.{Reason, should_auto_suspend}
use openvpnd.Backend.{LiveClient, LiveInstance}
use openvpnd.Reconcile.{Answers, Management, Event, Reconciler, add_event}
use openvpnd.Reconcile.Suspend.{suspend_client, suspend_clients, suspend_for, mark}
use openvpnd.Reconcile.Edges.{
  emit_missing, peer_edges, instance_edge, differs, connected, peers_before, connect_event,
  disconnect_event,
}
use openvpnd.Reconcile.Sampling.{
  sample_client, sample_clients, by_cn, Counters, client_counters, counted, record_client,
  remember_client,
}
use openvpnd.Reconcile.Observed.{
  sample_live, sample_listed, sample_instance, sample_managed, Seen, sample_found, find_up,
  or_none_live, record_instance,
}

suspend_for_keeps_bw :
    (answers : Answers) (name : Bytes) (c : Client) (o : Option Reason) (r : Reconciler)
    → (suspend_for answers name c o r).1.bw ≡ r.bw
suspend_for_keeps_bw answers name c none r = refl
suspend_for_keeps_bw answers name c (some reason) r =
    if_lem (λ (x : Bool × Reconciler). x.1.bw ≡ r.bw) (answers.can_suspend c.id) (λ _. refl)
      (λ _. refl)

pub suspend_clients_keeps_bw :
    (answers : Answers) (name : Bytes) (cs : List Client) (r : Reconciler)
    → (suspend_clients answers name cs r).1.bw ≡ r.bw
unfolding suspend_clients suspend_client
suspend_clients_keeps_bw answers name [] r = refl
suspend_clients_keeps_bw answers name (c ∷ cs) r =
    let o = should_auto_suspend c answers.now in
    suspend_clients_keeps_bw answers name cs ((suspend_for answers name c o r).1)
    ∙ suspend_for_keeps_bw answers name c o r

emit_missing_keeps_bw :
    (event : Bytes → Event) (others cns : List Bytes) (r : Reconciler)
    → (emit_missing event others cns r).bw ≡ r.bw
unfolding emit_missing
emit_missing_keeps_bw event others [] r = refl
emit_missing_keeps_bw event others (cn ∷ cns) r =
    emit_missing_keeps_bw event others cns (if member cn others then r else add_event (event cn) r)
    ∙ if_lem (λ (x : Reconciler). x.bw ≡ r.bw) (member cn others) (λ _. refl) (λ _. refl)

record_client_keeps_bw :
    (answers : Answers) (name : Bytes) (c : Client) (found : Option LiveClient) (n : Counters)
    (r : Reconciler)
    → (record_client answers name c found n r).bw ≡ r.bw
record_client_keeps_bw answers name c none n r = refl
record_client_keeps_bw answers name c (some l) n r =
    if_lem (λ (x : Reconciler). x.bw ≡ r.bw) (true && c.suspended && answers.can_kill name)
      (λ _. refl) (λ _. refl)

remember_client_keeps_bw :
    (answers : Answers) (name : Bytes) (c : Client) (found : Option LiveClient) (r : Reconciler)
    → (remember_client answers name c found r).bw ≡ r.bw
remember_client_keeps_bw answers name c none r = refl
remember_client_keeps_bw answers name c (some l) r = refl

sample_client_keeps_bw :
    (answers : Answers) (name : Bytes) (found : Option LiveClient) (c : Client) (r : Reconciler)
    → (sample_client answers name found c r).1.bw ≡ r.bw
unfolding sample_client suspend_client
sample_client_keeps_bw answers name found c r =
    let n = client_counters answers name c found r in
    let r1 = remember_client answers name c found r in
    let o = should_auto_suspend (counted n c) answers.now in
    let judged = suspend_for answers name (counted n c) o r1 in
    record_client_keeps_bw answers name (mark (judged.0) c) found n (judged.1)
    ∙ suspend_for_keeps_bw answers name (counted n c) o r1
    ∙ remember_client_keeps_bw answers name c found r

sample_clients_keeps_bw :
    (answers : Answers) (name : Bytes) (live : List LiveClient) (cs : List Client) (r : Reconciler)
    → (sample_clients answers name live cs r).1.bw ≡ r.bw
unfolding sample_clients
sample_clients_keeps_bw answers name live [] r = refl
sample_clients_keeps_bw answers name live (c ∷ cs) r =
    let found = by_cn c.common_name live in
    sample_clients_keeps_bw answers name live cs ((sample_client answers name found c r).1)
    ∙ sample_client_keeps_bw answers name found c r

peer_edges_keeps_bw :
    (name : Bytes) (live : List LiveClient) (r : Reconciler) → (peer_edges name live r).bw ≡ r.bw
unfolding peer_edges
peer_edges_keeps_bw name live r =
    let now = connected live in
    let before = peers_before name r in
    emit_missing_keeps_bw (disconnect_event name) now before
      (emit_missing (connect_event name) before now r)
    ∙ emit_missing_keeps_bw (connect_event name) before now r

sample_found_keeps_bw :
    (answers : Answers) (inst : Instance) (error : Bytes) (o : Option LiveInstance) (r : Reconciler)
    → (sample_found answers inst error o r).1.bw ≡ r.bw
sample_found_keeps_bw answers inst error none r = refl
sample_found_keeps_bw answers inst error (some l) r = refl

sample_listed_keeps_bw :
    (answers : Answers) (inst : Instance) (error : Bytes) (r : Reconciler)
    → (sample_listed answers inst error r).1.bw ≡ r.bw
unfolding sample_listed
sample_listed_keeps_bw answers inst error r =
    sample_found_keeps_bw answers inst error
      (find_up inst.name (or_none_live (answers.list_sampling inst.name))) r

sample_live_keeps_bw :
    (answers : Answers) (inst : Instance) (clients : List Client) (st : LiveInstance)
    (r : Reconciler)
    → (sample_live answers inst clients st r).1.bw ≡ r.bw
unfolding sample_live
sample_live_keeps_bw answers inst clients st r =
    sample_clients_keeps_bw answers inst.name st.clients clients _
    ∙ peer_edges_keeps_bw inst.name st.clients _

sample_managed_keeps_bw :
    (answers : Answers) (inst : Instance) (clients : List Client) (m : Management) (r : Reconciler)
    → (sample_managed answers inst clients m r).1.bw ≡ r.bw
unfolding sample_managed
sample_managed_keeps_bw answers inst clients (Management.live st) r =
    sample_live_keeps_bw answers inst clients st r
sample_managed_keeps_bw answers inst clients (Management.no_status e) r = refl
sample_managed_keeps_bw answers inst clients (Management.unreachable e) r =
    sample_listed_keeps_bw answers inst e r

pub sample_instance_keeps_bw :
    (answers : Answers) (inst : Instance) (clients : List Client) (r : Reconciler)
    → (sample_instance answers inst clients r).1.bw ≡ r.bw
unfolding sample_instance
sample_instance_keeps_bw answers inst clients r =
    if_lem (λ (x : Seen × Reconciler). x.1.bw ≡ r.bw) inst.enabled
      (λ _. sample_managed_keeps_bw answers inst clients (answers.management inst.name) r)
      (λ _. refl)

instance_edge_keeps_bw :
    (name : Bytes) (up : Bool) (r : Reconciler) → (instance_edge name up r).bw ≡ r.bw
unfolding instance_edge
instance_edge_keeps_bw name up r =
    if_lem (λ (x : Reconciler). x.bw ≡ r.bw) (differs (lookup name r.prev_up) up) (λ _. refl)
      (λ _. refl)

pub record_instance_keeps_bw :
    (answers : Answers) (inst : Instance) (seen : Seen) (r : Reconciler)
    → (record_instance answers inst seen r).bw ≡ r.bw
unfolding record_instance
record_instance_keeps_bw answers inst seen r =
    instance_edge_keeps_bw inst.name (seen.up && inst.enabled) _

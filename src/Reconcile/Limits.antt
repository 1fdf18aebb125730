-- ===== src/Reconcile/Limits.antt =====
-- What a pass does to the enforcer (internal/reconcile/reconciler.go): it is as well-formed after any number
-- of passes as a new one.
use mathlib.Core.Path.{subst}
use openvpnd.Base.{◌≡◌, sym, ◌∙◌, not, Option, none, some, List, [], ◌∷◌, if_lem}
use openvpnd.Base.Text.{Bytes, codes, bytes_eq, to_lower, trim_space}
use openvpnd.Base.Sort.{member}
use openvpnd.Models.{Instance, Client}
use openvpnd.Bandwidth.Plan.{Mode}
use openvpnd.Bandwidth.State.{Runner, Enforcer, new_enforcer}
use openvpnd.Bandwidth.Enforcer.{clear_instance}
use openvpnd.Bandwidth.Moves.Classes.{IsWellFormed}
use openvpnd.Bandwidth.Trace.{Operation, perform, perform-IsWellFormed, new_enforcer-IsWellFormed}
use openvpnd.Backend.{LiveInstance}
use openvpnd.Reconcile.{Config, Answers, Reconciler, rows}
use openvpnd.Reconcile.Suspend.{suspend_clients}
use openvpnd.Reconcile.Shape.{limits, shape}
use openvpnd.Reconcile.Desired.{is_server, render, binary_path}
use openvpnd.Reconcile.Observed.{listed, observe}
use openvpnd.Reconcile.Pass.{apply_instance, hand_rendered, apply_with, Outcome}
use openvpnd.Reconcile.Run.{apply_all, after_apply, remove_orphans, run, passes}
use openvpnd.Reconcile.Keeps.{
  suspend_clients_keeps_bw, sample_instance_keeps_bw, record_instance_keeps_bw,
}

-- The limits of an instance are set by operations of the enforcer.
shape-IsWellFormed :
    (runner : Runner) (inst : Instance) (clients : List Client) (e : Enforcer)
    → IsWellFormed e
    → IsWellFormed (shape runner inst clients e)
unfolding shape perform
shape-IsWellFormed runner inst clients e w =
    let name = inst.name in
    let ceiling = Operation.shape_device inst.device inst.bandwidth_rx_bps inst.bandwidth_tx_bps in
    let peers = Operation.sync_clients inst.device (limits clients) in
    let role = to_lower (trim_space inst.role) in
    if_lem IsWellFormed (not inst.enabled)
      (λ _. perform-IsWellFormed runner name Operation.clear_all e w)
      (λ _.
        if_lem IsWellFormed (bytes_eq role (codes "server"))
          (λ _.
            perform-IsWellFormed runner name ceiling (perform runner name peers e)
              (perform-IsWellFormed runner name peers e w))
          (λ _.
            if_lem IsWellFormed (bytes_eq role (codes "client"))
              (λ _. perform-IsWellFormed runner name ceiling e w) (λ _. w)))

pub observe-bw :
    (runner : Runner) (answers : Answers) (inst : Instance) (clients : List Client) (r : Reconciler)
    → (observe runner answers inst clients r).bw ≡ shape runner inst clients r.bw
unfolding observe
observe-bw runner answers inst clients r =
    record_instance_keeps_bw answers inst _ _ ∙ sample_instance_keeps_bw answers inst clients _

hand_rendered-IsWellFormed :
    (runner : Runner) (cfg : Config) (answers : Answers) (inst : Instance) (binary : Bytes)
    (clients : List Client) (o : Option Bytes) (r : Reconciler)
    → IsWellFormed r.bw
    → IsWellFormed ((hand_rendered runner cfg answers inst binary clients o r).1.bw)
hand_rendered-IsWellFormed runner cfg answers inst binary clients none r w = w
hand_rendered-IsWellFormed runner cfg answers inst binary clients (some content) r w =
    if_lem (λ (x : Outcome). IsWellFormed (x.1.bw)) (answers.can_ensure inst.name)
      (λ _.
        subst IsWellFormed (sym (observe-bw runner answers inst clients _))
          (shape-IsWellFormed runner inst clients r.bw w))
      (λ _. w)

apply_with-IsWellFormed :
    (runner : Runner) (cfg : Config) (answers : Answers) (inst : Instance) (o : Option Bytes)
    (r : Reconciler)
    → IsWellFormed r.bw
    → IsWellFormed ((apply_with runner cfg answers inst o r).1.bw)
apply_with-IsWellFormed runner cfg answers inst none r w = w
apply_with-IsWellFormed runner cfg answers inst (some binary) r w =
    let judged = suspend_clients answers inst.name (rows r inst.name) r in
    let kept =
      subst IsWellFormed (sym (suspend_clients_keeps_bw answers inst.name (rows r inst.name) r))
        w in
    if_lem (λ (x : Outcome). IsWellFormed (x.1.bw)) (not (is_server inst))
      (λ _.
        hand_rendered-IsWellFormed runner cfg answers inst binary [] (render cfg answers inst [] r)
          r w)
      (λ _.
        if_lem (λ (x : Outcome). IsWellFormed (x.1.bw)) (answers.clients_listed inst.name)
          (λ _.
            hand_rendered-IsWellFormed runner cfg answers inst binary (judged.0)
              (render cfg answers inst (judged.0) (judged.1)) (judged.1) kept)
          (λ _. w))

after_apply-IsWellFormed :
    (inst : Instance) (o : Outcome) → IsWellFormed (o.1.bw) → IsWellFormed ((after_apply inst o).bw)
after_apply-IsWellFormed inst (none, r) w = w
after_apply-IsWellFormed inst (some error, r) w = w

pub apply_all-IsWellFormed :
    (runner : Runner) (cfg : Config) (answers : Answers) (is : List Instance) (r : Reconciler)
    → IsWellFormed r.bw
    → IsWellFormed ((apply_all runner cfg answers is r).bw)
unfolding apply_all apply_instance
apply_all-IsWellFormed runner cfg answers [] r w = w
apply_all-IsWellFormed runner cfg answers (inst ∷ is) r w =
    let o = binary_path cfg answers inst in
    apply_all-IsWellFormed runner cfg answers is
      (after_apply inst (apply_with runner cfg answers inst o r))
      (after_apply-IsWellFormed inst (apply_with runner cfg answers inst o r)
        (apply_with-IsWellFormed runner cfg answers inst o r w))

pub clear_instance-IsWellFormed :
    (runner : Runner) (name : Bytes) (e : Enforcer)
    → IsWellFormed e
    → IsWellFormed (clear_instance runner name e)
unfolding perform
clear_instance-IsWellFormed runner name e w =
    perform-IsWellFormed runner name Operation.clear_all e w

remove_orphans-IsWellFormed :
    (runner : Runner) (names : List Bytes) (ls : List LiveInstance) (r : Reconciler)
    → IsWellFormed r.bw
    → IsWellFormed ((remove_orphans runner names ls r).bw)
unfolding remove_orphans
remove_orphans-IsWellFormed runner names [] r w = w
remove_orphans-IsWellFormed runner names (l ∷ ls) r w =
    remove_orphans-IsWellFormed runner names ls _ (
      if_lem (λ (x : Reconciler). IsWellFormed x.bw) (member l.name names) (λ _. w)
        (λ _. clear_instance-IsWellFormed runner l.name r.bw w))

run-IsWellFormed :
    (runner : Runner) (cfg : Config) (answers : Answers) (r : Reconciler)
    → IsWellFormed r.bw
    → IsWellFormed ((run runner cfg answers r).bw)
unfolding run
run-IsWellFormed runner cfg answers r w =
    remove_orphans-IsWellFormed runner _ (listed answers) _
      (apply_all-IsWellFormed runner cfg answers r.store.instances r w)

passes-keep :
    (runner : Runner) (cfg : Config) (all : List Answers) (r : Reconciler)
    → IsWellFormed r.bw
    → IsWellFormed ((passes runner cfg all r).bw)
unfolding passes
passes-keep runner cfg [] r w = w
passes-keep runner cfg (answers ∷ more) r w =
    passes-keep runner cfg more (run runner cfg answers r) (run-IsWellFormed runner cfg answers r w)

-- From a new enforcer on, after any number of passes over any instances and clients, whatever the store, the
-- backend and the host answer, the class ids of remembered clients and the next id of every device lie
-- between 10 and 9000.
pub passes-IsWellFormed :
    (runner : Runner) (cfg : Config) (all : List Answers) (r : Reconciler) (mode : Mode)
    → r.bw ≡ new_enforcer mode
    → IsWellFormed ((passes runner cfg all r).bw)
passes-IsWellFormed runner cfg all r mode h =
    passes-keep runner cfg all r (subst IsWellFormed (sym h) (new_enforcer-IsWellFormed mode))

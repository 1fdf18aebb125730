-- ===== src/Reconcile/Pass.antt =====
-- A pass over one instance (`applyInstance` in internal/reconcile/reconciler.go).
use openvpnd.Base.{not, Option, none, some, List, [], if◌then◌else◌}
use openvpnd.Base.Text.{Bytes, codes}
use openvpnd.Models.{Instance, Client}
use openvpnd.Bandwidth.State.{Runner}
use openvpnd.Reconcile.{Config, Answers, Call, Reconciler, rows, call}
use openvpnd.Reconcile.Suspend.{suspend_clients}
use openvpnd.Reconcile.Desired.{binary_path, is_server, render, desired}
use openvpnd.Reconcile.Observed.{observe}

-- The error, if there was one, with its text up to the cause, and the state.
abbrev pub Outcome : Type 0
Outcome = Option Bytes × Reconciler

-- The configuration has been rendered, or not.
abbrev pub hand_rendered :
    Runner → Config → Answers → Instance → Bytes → List Client → Option Bytes → Reconciler → Outcome
hand_rendered runner cfg answers inst binary clients none r = (some (codes "render conf"), r)
hand_rendered runner cfg answers inst binary clients (some content) r =
    let called = call (Call.ensure (desired cfg inst binary content clients r)) r in
    if answers.can_ensure inst.name
    then (none, observe runner answers inst clients called)
    else (some (codes "ensure instance"), called)

abbrev pub hand_over :
    Runner → Config → Answers → Instance → Bytes → List Client → Reconciler → Outcome
hand_over runner cfg answers inst binary clients r =
    hand_rendered runner cfg answers inst binary clients (render cfg answers inst clients r) r

-- The binary is known, or not.
abbrev pub apply_with : Runner → Config → Answers → Instance → Option Bytes → Reconciler → Outcome
apply_with runner cfg answers inst none r = (some (codes "resolve binary"), r)
apply_with runner cfg answers inst (some binary) r =
    let judged = suspend_clients answers inst.name (rows r inst.name) r in
    if not (is_server inst)
    then hand_over runner cfg answers inst binary [] r
    else if answers.clients_listed inst.name
    then hand_over runner cfg answers inst binary (judged.0) (judged.1)
    else (some (codes "list clients"), r)

-- `applyInstance`.
unfoldable pub apply_instance : Runner → Config → Answers → Instance → Reconciler → Outcome
unfolding suspend_clients observe
apply_instance runner cfg answers inst r =
    apply_with runner cfg answers inst (binary_path cfg answers inst) r

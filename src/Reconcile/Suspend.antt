-- ===== src/Reconcile/Suspend.antt =====
-- The suspension of clients that have expired or used up their traffic (internal/reconcile/reconciler.go).
use openvpnd.Base.{Bool, true, false, Option, none, some, List, [], ◌∷◌, ◌++◌, if◌then◌else◌}
use openvpnd.Base.Int.{ℤ}
use openvpnd.Base.Decimal.{format_int}
use openvpnd.Base.Text.{Bytes, codes}
use openvpnd.Models.{Client}
use openvpnd.Policy.{Reason, should_auto_suspend}
use openvpnd.Reconcile.{Answers, Event, Reconciler, add_event, update_client}

abbrev pub suspend_kind : Reason → Bytes
suspend_kind Reason.expired = codes "peer.expired"
suspend_kind Reason.traffic_limit = codes "peer.suspended"

abbrev suspend_message : Reason → ℤ → Bytes
suspend_message Reason.expired limit = codes "client expired; suspended"
suspend_message Reason.traffic_limit limit =
    codes "traffic limit exceeded (" ++ format_int limit ++ codes " bytes); client suspended"

-- `emitAutoSuspend`; its default case cannot be reached.
abbrev pub suspend_event : Bytes → Client → Reason → Event
suspend_event name c reason = record {
  level = codes "warn";
  kind = suspend_kind reason;
  instance_name = name;
  client_cn = c.common_name;
  message = suspend_message reason c.traffic_limit_bytes;
}

abbrev pub suspended_client : Client → Client
suspended_client c = record c { suspended = true }

-- The client as the policy judges it, and whether it is suspended; a store that refuses changes nothing.
abbrev pub suspend_for : Answers → Bytes → Client → Option Reason → Reconciler → Bool × Reconciler
suspend_for answers name c none r = (false, r)
suspend_for answers name c (some reason) r =
    if answers.can_suspend c.id
    then (
      true,
      add_event (suspend_event name c reason) (update_client name c.id suspended_client r),
    )
    else (false, r)

unfoldable pub suspend_client : Answers → Bytes → Client → Reconciler → Bool × Reconciler
suspend_client answers name c r = suspend_for answers name c (should_auto_suspend c answers.now) r

abbrev pub mark : Bool → Client → Client
mark true c = suspended_client c
mark false c = c

-- The loop over all clients before the files are written.
unfoldable pub suspend_clients :
    Answers → Bytes → List Client → Reconciler → List Client × Reconciler
unfolding suspend_client
suspend_clients answers name [] r = ([], r)
suspend_clients answers name (c ∷ cs) r =
    let first = suspend_client answers name c r in
    let rest = suspend_clients answers name cs (first.1) in (mark (first.0) c ∷ rest.0, rest.1)

-- ===== src/Reconcile/Shape.antt =====
-- Which limits an instance asks the enforcer for (internal/reconcile/reconciler.go).
use openvpnd.Base.{Bool, not, ◌&&◌, ◌||◌, List, [], ◌∷◌, if◌then◌else◌}
use openvpnd.Base.Int.{pos, leb_ℤ}
use openvpnd.Base.Text.{codes, bytes_eq, trim_space, to_lower}
use openvpnd.Models.{Instance, Client}
use openvpnd.Policy.{effective_bandwidth}
use openvpnd.Bandwidth.Plan.{ClientLimit}
use openvpnd.Bandwidth.State.{Runner, Enforcer}
use openvpnd.Bandwidth.Devices.{sync_device}
use openvpnd.Bandwidth.Enforcer.{sync, clear_instance}

abbrev pub limit_of : Client → ClientLimit
limit_of c =
    let rates = effective_bandwidth c.bandwidth_rx_bps c.bandwidth_tx_bps c.bandwidth_total_bps in
    record {
      common_name = c.common_name;
      static_ip = c.static_ip;
      rx_bps = rates.0;
      tx_bps = rates.1;
    }

abbrev pub is_unlimited : ClientLimit → Bool
is_unlimited l = leb_ℤ l.rx_bps (pos 0) && leb_ℤ l.tx_bps (pos 0)

-- Suspended clients and clients without a rate are left out.
unfoldable pub limits : List Client → List ClientLimit
limits [] = []
limits (c ∷ cs) =
    let rest = limits cs in
    if c.suspended || is_unlimited (limit_of c) then rest else limit_of c ∷ rest

abbrev device_ceiling : Runner → Instance → Enforcer → Enforcer
device_ceiling runner inst e =
    (sync_device runner inst.name inst.device inst.bandwidth_rx_bps inst.bandwidth_tx_bps e).1

-- By role; errors are only logged.
unfoldable pub shape : Runner → Instance → List Client → Enforcer → Enforcer
unfolding limits sync sync_device clear_instance
shape runner inst clients e =
    let role = to_lower (trim_space inst.role) in
    if not inst.enabled
    then clear_instance runner inst.name e
    else if bytes_eq role (codes "server")
    then device_ceiling runner inst (sync runner inst.name inst.device (limits clients) e)
    else if bytes_eq role (codes "client")
    then device_ceiling runner inst e
    else e

-- ===== src/Tests/Shaping.antt =====
-- A host with tc and one client to shape.
use openvpnd.Base.{◌≤◌, ◌≡◌, ◌⊎◌, refl, true, false, some, [], ◌∷◌, List, All}
use openvpnd.Base.Int.{pos}
use openvpnd.Base.Text.{Bytes, codes, trim_space}
use openvpnd.Net.{is_ip, parse_ipv4}
use openvpnd.Bandwidth.Plan.{Mode, ClientLimit, needs_shaping}
use openvpnd.Bandwidth.State.{Runner, Enforcer, new_enforcer, is_silent}
use openvpnd.Bandwidth.Enforcer.{apply, sync}
use openvpnd.Bandwidth.Moves.Classes.{IsWellFormed}
use openvpnd.Bandwidth.Moves.Kept.{AgreeOn}
use openvpnd.Bandwidth.Trace.{
  Operation, perform, perform_all, perform_all-IsWellFormed, perform-AgreeOn, perform_all_quiet,
}
use openvpnd.Bandwidth.Synced.{Covered, Shapes, sync-Covered}
use openvpnd.Bandwidth.Settled.{Works, Settles, IsShapeable, apply-Settles_once}
use openvpnd.Bandwidth.Rates.{
  shaper_bytes_per_sec, max_shaper_bytes_per_sec, max_shaper_is_maximum, Some,
}

-- It finds every binary under its own name, and no command fails.
abbrev host : Runner
host = record { look_path = λ h bin. some bin; succeeds = λ h c. true }

abbrev laptop : ClientLimit
laptop = record {
  common_name = codes "laptop";
  static_ip = codes "10.8.0.12";
  rx_bps = pos 8000000;
  tx_bps = pos 0;
}

abbrev start : Enforcer
start = new_enforcer Mode.tc

abbrev instance_name : Bytes
instance_name = codes "office"

abbrev device : Bytes
device = codes "tun0"

abbrev calls : List (Bytes × Operation)
calls =
    (instance_name, Operation.sync_clients device (laptop ∷ []))
    ∷ (instance_name, Operation.shape_device device (pos 0) (pos 4000000))
    ∷ (instance_name, Operation.clear_all)
    ∷ []

perform_all-IsWellFormed_example : IsWellFormed (perform_all host calls (new_enforcer Mode.tc))
perform_all-IsWellFormed_example = perform_all-IsWellFormed host Mode.tc calls

start-IsWellFormed : IsWellFormed start
unfolding perform_all
start-IsWellFormed = perform_all-IsWellFormed host Mode.tc []

start_loud : is_silent start.mode ≡ false
unfolding new_enforcer
start_loud = refl

laptop-IsShapeable : IsShapeable device laptop
unfolding trim_space is_ip needs_shaping parse_ipv4
laptop-IsShapeable = record { trimmed = refl; named = refl; address = refl; limited = refl }

sync-Covered_example :
    Covered instance_name
      (Shapes (laptop ∷ []))
      (sync host instance_name device (laptop ∷ []) start)
sync-Covered_example =
    sync-Covered host instance_name device (laptop ∷ []) start start-IsWellFormed start_loud

perform-AgreeOn_example :
    AgreeOn
      (codes "home")
      start
      (perform host instance_name (Operation.sync_clients device (laptop ∷ [])) start)
perform-AgreeOn_example =
    perform-AgreeOn host instance_name (codes "home") (Operation.sync_clients device (laptop ∷ []))
      start start-IsWellFormed (λ e. cc e)

perform_all_quiet_example : (perform_all host calls (new_enforcer Mode.log)).host ≡ []
perform_all_quiet_example = perform_all_quiet host Mode.log calls refl

host-Works : Works host
host-Works = record { finds = λ h bin. (bin, refl); accepts = λ h c. refl }

apply-Settles_once_example :
    Settles instance_name device laptop (apply host instance_name device laptop start)
    × (apply host instance_name device laptop (apply host instance_name device laptop start).1
        ≡ (true, (apply host instance_name device laptop start).1))
apply-Settles_once_example =
    apply-Settles_once host host instance_name device laptop start host-Works laptop-IsShapeable
      start_loud

max_shaper_is_maximum_example :
    All
      (λ (c : ClientLimit).
        shaper_bytes_per_sec c.rx_bps c.tx_bps ≤ max_shaper_bytes_per_sec (laptop ∷ []))
      (laptop ∷ [])
    × ((max_shaper_bytes_per_sec (laptop ∷ []) ≡ 0)
        ⊎ Some
            (λ (c : ClientLimit).
              shaper_bytes_per_sec c.rx_bps c.tx_bps ≡ max_shaper_bytes_per_sec (laptop ∷ []))
            (laptop ∷ []))
max_shaper_is_maximum_example = max_shaper_is_maximum (laptop ∷ [])

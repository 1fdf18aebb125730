-- ===== src/Bandwidth/Devices.antt =====
-- The whole-device part of the enforcer (internal/bandwidth/enforcer.go).
use openvpnd.Base.{true, false, not, ◌&&◌, ◌||◌, Option, none, some, ◌==◌, length, if◌then◌else◌}
use openvpnd.Base.Int.{ℤ}
use openvpnd.Base.Text.{Bytes, codes, bytes_eq, trim_space}
use openvpnd.Base.Assoc.{lookup, put, remove}
use openvpnd.Bandwidth.Plan.{apply_rules, remove_rules, needs_device_shaping, plan_device, is_empty}
use openvpnd.Bandwidth.State.{
  Runner, AppliedDevice, Enforcer, Outcome, is_tc, is_silent, run_rules, bin_available, same_ℤ,
}

-- `ClearDevice`.
unfoldable pub clear_found : Runner → Bytes → Enforcer → Option AppliedDevice → Enforcer
clear_found runner name e none = e
clear_found runner name e (some prev) =
    (run_rules runner true (remove_rules prev.rules)
      (record e { devices = remove name e.devices })).1

unfoldable pub clear_device : Runner → Bytes → Enforcer → Enforcer
unfolding clear_found
clear_device runner name e = clear_found runner name e (lookup name e.devices)

unfoldable pub remember_device : Bytes → AppliedDevice → Outcome → Outcome
remember_device name d (false, e) = (false, e)
remember_device name d (true, e) = (true, record e { devices = put name d e.devices })

-- `SyncDevice` from the plan on.
unfoldable pub install_device : Runner → Bytes → Bytes → ℤ → ℤ → Enforcer → Outcome
unfolding bin_available remember_device
install_device runner name device rx tx e =
    let rules = plan_device device rx tx in
    let (available, looked) = bin_available runner (codes "tc") e in
    let run = λ (at : Enforcer).
      remember_device name (record { device = device; rx_bps = rx; tx_bps = tx; rules = rules })
        (run_rules runner false (apply_rules rules) at) in
    if length rules == 0
    then (true, clear_device runner name e)
    else if is_tc e.mode
    then (if available then run looked else (true, looked))
    else run e

unfoldable pub device_over :
    Runner → Bytes → Bytes → ℤ → ℤ → Enforcer → Option AppliedDevice → Outcome
unfolding install_device
device_over runner name device rx tx e none = install_device runner name device rx tx e
device_over runner name device rx tx e (some prev) =
    if bytes_eq prev.device device && same_ℤ prev.rx_bps rx && same_ℤ prev.tx_bps tx
    then (true, e)
    else install_device runner name device rx tx
        (run_rules runner true (remove_rules prev.rules) e).1

-- `SyncDevice`.
unfoldable pub sync_device : Runner → Bytes → Bytes → ℤ → ℤ → Enforcer → Outcome
unfolding device_over needs_device_shaping
sync_device runner name device rx tx e =
    let dev = trim_space device in
    if is_silent e.mode
    then (true, e)
    else if not (needs_device_shaping rx tx) || is_empty dev
    then (true, clear_device runner name e)
    else device_over runner name dev rx tx e (lookup name e.devices)

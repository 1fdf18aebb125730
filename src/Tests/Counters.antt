-- ===== src/Tests/Counters.antt =====
-- Concrete samples and instances.
use Prim.Native.Nat.{max}
use openvpnd.Base.{◌+◌, ◌≡◌, true, none, some, [], ◌∷◌, arith, if◌then◌else◌}
use openvpnd.Base.Int.{pos}
use openvpnd.Base.Text.{codes, bytes_eq}
use openvpnd.Stats.Lifetime.{run_samples, samples, total_traffic, run_samples_after_restart}
use openvpnd.Stats.Cache.{
  InstanceStats, new_cache, set_instance, get_instance, get_instance-set_instance,
}

run_samples_after_restart_example :
    run_samples (pos 1000) none (samples (30 ∷ 80 ∷ 5 ∷ []))
    ≡ pos (max 1000 30 + total_traffic 30 (80 ∷ 5 ∷ []))
run_samples_after_restart_example = run_samples_after_restart 1000 30 (80 ∷ 5 ∷ []) (omega arith)

abbrev office : InstanceStats
office = record {
  name = codes "office";
  role = codes "server";
  up = true;
  pid = pos 71;
  port = pos 1194;
  connected_clients = pos 2;
  rx_bytes = pos 10;
  tx_bytes = pos 20;
  rx_bps = pos 0;
  tx_bps = pos 0;
  last_error = [];
  updated_at = 5;
}

get_instance-set_instance_example : get_instance (set_instance new_cache office) (codes "home") ≡ (
    if bytes_eq (codes "office") (codes "home")
    then some office
    else get_instance new_cache (codes "home"))
get_instance-set_instance_example = get_instance-set_instance new_cache office (codes "home")

-- ===== src/Bandwidth/Moves/Operations.antt =====
-- Every operation of the enforcer is a chain of moves on its own instance.
use openvpnd.Base.{
  ℕ, ◌≡◌, refl, true, false, not, ◌&&◌, ◌||◌, Option, none, some, List, [], ◌∷◌, Holds-some, if_lem,
  length, ◌==◌, if◌then◌else◌,
}
use openvpnd.Base.Int.{ℤ}
use openvpnd.Base.Text.{Bytes, codes, bytes_eq, trim_space}
use openvpnd.Base.Assoc.{Assoc, lookup, keys}
use openvpnd.Base.Sort.{sort_strings}
use openvpnd.Bandwidth.Plan.{
  ClientLimit, PlanInput, plan, plan_device, apply_rules, remove_rules, needs_shaping,
  needs_device_shaping, is_empty,
}
use openvpnd.Bandwidth.State.{
  Runner, AppliedClient, AppliedDevice, Enforcer, Outcome, clients_of, set_clients, is_tc,
  is_silent, run_rules, bin_available, alloc_class_id, same_ℤ,
}
use openvpnd.Bandwidth.Devices.{
  clear_found, clear_device, remember_device, install_device, device_over, sync_device,
}
use openvpnd.Bandwidth.Enforcer.{
  remove_found, remove_client, ensured, ensure_instance, remember_client, install, apply_over,
  apply, applied_client, is_unchanged, remove_each, clear_instance,
}
use openvpnd.Bandwidth.Moves.{
  IsClassId, Move, Moves, one, ◌then◌, run_rules-Moves, bin_available-Moves,
}
use openvpnd.Bandwidth.Moves.Classes.{IsWellFormed, alloc_class_id-IsClassId, Moves-IsWellFormed}

module _ (runner : Runner) (name : Bytes) (W : Bytes → Type 0) where
  remove_found-Moves :
      (cn : Bytes) (e : Enforcer) (o : Option AppliedClient)
      → Moves name W e (remove_found runner name cn e o)
  unfolding remove_found
  remove_found-Moves cn e none = Moves.here
  remove_found-Moves cn e (some prev) =
      one (Move.dropped e cn) then run_rules-Moves name W runner true (remove_rules prev.rules) _

  pub remove_client-Moves :
      (cn : Bytes) (e : Enforcer) → Moves name W e (remove_client runner name cn e)
  unfolding remove_client
  remove_client-Moves cn e = remove_found-Moves cn e (lookup cn (clients_of e name))

  pub remove_each-Moves :
      (cns : List Bytes) (e : Enforcer) → Moves name W e (remove_each runner name cns e)
  unfolding remove_each
  remove_each-Moves [] e = Moves.here
  remove_each-Moves (cn ∷ cns) e =
      remove_client-Moves cn e then remove_each-Moves cns (remove_client runner name cn e)

  ensured-Moves :
      (e : Enforcer) (o : Option (Assoc AppliedClient))
      → lookup name e.applied ≡ o
      → Moves name W e (ensured name e o)
  unfolding ensured
  ensured-Moves e none h =
      let t : Moves name W e (set_clients name (clients_of e name) e) = one (Move.touched e) in
      rw h at t
  ensured-Moves e (some m) h = Moves.here

  pub ensure_instance-Moves : (e : Enforcer) → Moves name W e (ensure_instance name e)
  unfolding ensure_instance
  ensure_instance-Moves e = ensured-Moves e (lookup name e.applied) refl

  remember_client-Moves :
      (c : ClientLimit) (a : AppliedClient) (e : Enforcer) (o : Outcome)
      → W c.common_name
      → IsClassId a.class_id
      → Moves name W e o.1
      → Moves name W e (remember_client name c a o).1
  unfolding remember_client
  remember_client-Moves c a e (false, f) w i m = m
  remember_client-Moves c a e (true, f) w i m = m then one (Move.recorded f c.common_name a w i)

  install-Moves :
      (device : Bytes) (c : ClientLimit) (class_id : ℕ) (e : Enforcer)
      → W c.common_name
      → IsClassId class_id
      → Moves name W e (install runner name device c class_id e).1
  unfolding install
  install-Moves device c class_id e w i =
      let input : PlanInput = record {
        device = device;
        static_ip = c.static_ip;
        rx_bps = c.rx_bps;
        tx_bps = c.tx_bps;
        class_id = class_id;
      } in
      let look = bin_available runner (codes "tc") e in
      let P : Outcome → Type 0 = λ o. Moves name W e o.1 in
      let run : (f : Enforcer)
          → Moves name W f
              (remember_client name c (applied_client device c class_id (plan input))
                (run_rules runner false (apply_rules (plan input)) f)).1 =
        λ f.
          remember_client-Moves c (applied_client device c class_id (plan input)) f
            (run_rules runner false (apply_rules (plan input)) f) w i
            (run_rules-Moves name W runner false (apply_rules (plan input)) f) in
      if_lem P (length (plan input) == 0) (λ h. Moves.here)
        λ h.
          if_lem P (is_tc e.mode)
            (λ t.
              let seen = bin_available-Moves name W runner (codes "tc") e t in
              if_lem P (look.0) (λ p. seen then run look.1) (λ p. seen))
            (λ t. run e)

  apply_over-Moves :
      (device : Bytes) (c : ClientLimit) (e : Enforcer) (o : Option AppliedClient)
      → W c.common_name
      → IsWellFormed e
      → lookup c.common_name (clients_of e name) ≡ o
      → Moves name W e (apply_over runner name device c e o).1
  unfolding apply_over
  apply_over-Moves device c e none w f h =
      one (Move.allocated e device)
      then install-Moves device c (alloc_class_id device e).0 (alloc_class_id device e).1 w
          (alloc_class_id-IsClassId device e f).0
  apply_over-Moves device c e (some prev) w f h =
      let ok =
        Holds-some _ (lookup c.common_name (clients_of e name)) (f.remembered name c.common_name)
          h in
      let undone = (run_rules runner true (remove_rules prev.rules) e).1 in
      if_lem (λ (o : Outcome). Moves name W e o.1) (is_unchanged prev device c) (λ _. Moves.here)
        λ _.
          run_rules-Moves name W runner true (remove_rules prev.rules) e
          then install-Moves device c prev.class_id undone w ok

  pub apply-Moves :
      (device : Bytes) (c : ClientLimit) (e : Enforcer)
      → W c.common_name
      → IsWellFormed e
      → Moves name W e (apply runner name device c e).1
  unfolding apply
  apply-Moves device c e w f =
      let P : Outcome → Type 0 = λ o. Moves name W e o.1 in
      let start = ensure_instance-Moves e in
      let e1 = ensure_instance name e in
      if_lem P (is_silent e.mode) (λ _. Moves.here)
        λ _.
          if_lem P (not (needs_shaping c.static_ip c.rx_bps c.tx_bps))
            (λ _. remove_client-Moves c.common_name e)
            λ _.
              if_lem P (is_empty (trim_space device)) (λ _. Moves.here)
                λ _.
                  start
                  then apply_over-Moves (trim_space device) c e1
                      (lookup c.common_name (clients_of e1 name)) w (Moves-IsWellFormed start f)
                      refl

  clear_found-Moves :
      (e : Enforcer) (o : Option AppliedDevice) → Moves name W e (clear_found runner name e o)
  unfolding clear_found
  clear_found-Moves e none = Moves.here
  clear_found-Moves e (some prev) =
      one (Move.device_dropped e)
      then run_rules-Moves name W runner true (remove_rules prev.rules) _

  pub clear_device-Moves : (e : Enforcer) → Moves name W e (clear_device runner name e)
  unfolding clear_device
  clear_device-Moves e = clear_found-Moves e (lookup name e.devices)

  pub clear_instance-Moves : (e : Enforcer) → Moves name W e (clear_instance runner name e)
  unfolding clear_instance
  clear_instance-Moves e =
      let cns = sort_strings (keys (clients_of e name)) in
      remove_each-Moves cns e
      then clear_device-Moves (remove_each runner name cns e)
      then one (Move.forgot (clear_device runner name (remove_each runner name cns e)))

  remember_device-Moves :
      (d : AppliedDevice) (e : Enforcer) (o : Outcome)
      → Moves name W e o.1
      → Moves name W e (remember_device name d o).1
  unfolding remember_device
  remember_device-Moves d e (false, f) m = m
  remember_device-Moves d e (true, f) m = m then one (Move.device_set f d)

  install_device-Moves :
      (device : Bytes) (rx tx : ℤ) (e : Enforcer)
      → Moves name W e (install_device runner name device rx tx e).1
  unfolding install_device
  install_device-Moves device rx tx e =
      let rules = plan_device device rx tx in
      let look = bin_available runner (codes "tc") e in
      let d : AppliedDevice = record { device = device; rx_bps = rx; tx_bps = tx; rules = rules } in
      let P : Outcome → Type 0 = λ o. Moves name W e o.1 in
      let run : (f : Enforcer)
          → Moves name W f
              (remember_device name d (run_rules runner false (apply_rules rules) f)).1 =
        λ f.
          remember_device-Moves d f (run_rules runner false (apply_rules rules) f)
            (run_rules-Moves name W runner false (apply_rules rules) f) in
      if_lem P (length rules == 0) (λ _. clear_device-Moves e)
        λ _.
          if_lem P (is_tc e.mode)
            (λ t.
              let seen = bin_available-Moves name W runner (codes "tc") e t in
              if_lem P (look.0) (λ _. seen then run look.1) (λ _. seen))
            (λ _. run e)

  device_over-Moves :
      (device : Bytes) (rx tx : ℤ) (e : Enforcer) (o : Option AppliedDevice)
      → Moves name W e (device_over runner name device rx tx e o).1
  unfolding device_over
  device_over-Moves device rx tx e none = install_device-Moves device rx tx e
  device_over-Moves device rx tx e (some prev) =
      let undone = (run_rules runner true (remove_rules prev.rules) e).1 in
      if_lem (λ (o : Outcome). Moves name W e o.1)
        (bytes_eq prev.device device && same_ℤ prev.rx_bps rx && same_ℤ prev.tx_bps tx)
        (λ _. Moves.here)
        λ _.
          run_rules-Moves name W runner true (remove_rules prev.rules) e
          then install_device-Moves device rx tx undone

  pub sync_device-Moves :
      (device : Bytes) (rx tx : ℤ) (e : Enforcer)
      → Moves name W e (sync_device runner name device rx tx e).1
  unfolding sync_device
  sync_device-Moves device rx tx e =
      let P : Outcome → Type 0 = λ o. Moves name W e o.1 in
      if_lem P (is_silent e.mode) (λ _. Moves.here)
        λ _.
          if_lem P (not (needs_device_shaping rx tx) || is_empty (trim_space device))
            (λ _. clear_device-Moves e)
            λ _. device_over-Moves (trim_space device) rx tx e (lookup name e.devices)

-- ===== src/Bandwidth/Settled.antt =====
-- Applying a limit that a working host accepts, and applying it again.
use openvpnd.Base.{
  ℕ, ◌≡◌, inl, inr, refl, Bool, true, false, Option, none, some, List, [], ◌∷◌, not, ◌||◌, arith,
  length, Bool-cases, ◌==◌,
}
use openvpnd.Base.Int.{ℤ}
use openvpnd.Base.Text.{Bytes, codes, bytes_eq_refl, trim_space}
use openvpnd.Base.Assoc.{Assoc, lookup, lookup-put}
use openvpnd.Bandwidth.Plan.{
  ClientLimit, PlanInput, Rule, plan, apply_rules, remove_rules, needs_shaping, is_empty,
}
use openvpnd.Bandwidth.State.{
  Command, Runner, AppliedClient, Enforcer, Outcome, Step, clients_of, is_tc, is_silent, run_found,
  run_rule, after_step, run_rules, found, bin_available, alloc_class_id, same_ℤ,
}
use openvpnd.Bandwidth.Enforcer.{
  ensured, ensure_instance, remember_client, install, apply_over, apply, is_unchanged,
  applied_client,
}
use openvpnd.Net.{is_ip}

-- A host that finds every binary, and on which every command succeeds.
pub record Works (runner : Runner) : Type 0 where
  pub finds :
      (h : List Command) (bin : Bytes) → (path : Bytes) × (runner.look_path h bin ≡ some path)
  pub accepts : (h : List Command) (c : Command) → runner.succeeds h c ≡ true

abbrev StepGoesOn : Step → Type 0
StepGoesOn s = (f : Enforcer) × (s ≡ Step.continue f)

module _ (runner : Runner) (works : Works runner) where
  run_rule_goes_on : (undo : Bool) (r : Rule) (e : Enforcer) → StepGoesOn (run_rule runner undo r e)
  unfolding run_rule run_found
  run_rule_goes_on undo r e = elim (Bool-cases (is_empty r.bin || not (is_tc e.mode))) [
    | inl skip ↦ rw skip (e, refl)
    | inr run ↦
        let (path, found_it) = works.finds e.host r.bin in
        let c : Command = record { path = path; args = r.args } in
        rw (run, found_it, works.accepts e.host c) (_, refl)
  ]

  run_rules_succeeds :
      (undo : Bool) (rs : List Rule) (e : Enforcer) → (run_rules runner undo rs e).0 ≡ true
  unfolding run_rules after_step
  run_rules_succeeds undo [] e = refl
  run_rules_succeeds undo (r ∷ rs) e =
      let (f, goes) = run_rule_goes_on undo r e in
      rw (goes, after_step) (run_rules_succeeds undo rs f)

  bin_available_finds : (bin : Bytes) (e : Enforcer) → bin_available runner bin e ≡ (true, e)
  unfolding bin_available found
  bin_available_finds bin e = let (path, found_it) = works.finds e.host bin in rw (found_it, found)

-- The books say that the client has these limits on this device.
abbrev pub IsSettled : Bytes → Bytes → ClientLimit → Enforcer → Type 0
IsSettled name device c e =
    (a : AppliedClient) × (lookup c.common_name (clients_of e name) ≡ some a)
    × (is_unchanged a device c ≡ true)

same_ℤ_refl : (z : ℤ) → same_ℤ z z ≡ true
same_ℤ_refl z = ground arith

is_unchanged_refl :
    (device : Bytes) (c : ClientLimit) (id : ℕ) (rules : List Rule)
    → is_unchanged (applied_client device c id rules) device c ≡ true
unfolding is_unchanged
is_unchanged_refl device c id rules =
    rw (bytes_eq_refl c.static_ip, same_ℤ_refl c.rx_bps, same_ℤ_refl c.tx_bps, bytes_eq_refl device)

-- An outcome without an error in which the client is settled.
abbrev pub Settles : Bytes → Bytes → ClientLimit → Outcome → Type 0
Settles name device c o = (o.0 ≡ true) × IsSettled name device c o.1

remember_client-Settles :
    (name device : Bytes) (c : ClientLimit) (id : ℕ) (rules : List Rule) (o : Outcome)
    → o.0 ≡ true
    → Settles name device c (remember_client name c (applied_client device c id rules) o)
unfolding remember_client
remember_client-Settles name device c id rules (false, e) h = absurd (cc)
remember_client-Settles name device c id rules (true, e) h =
    let a = applied_client device c id rules in
    (
      refl,
      (
        a,
        rw (lookup-put, bytes_eq_refl, lookup-put, bytes_eq_refl) refl,
        is_unchanged_refl device c id rules,
      ),
    )

abbrev plan_input : Bytes → ClientLimit → ℕ → PlanInput
plan_input device c id = record {
  device = device;
  static_ip = c.static_ip;
  rx_bps = c.rx_bps;
  tx_bps = c.tx_bps;
  class_id = id;
}

-- A device name without spaces at its ends, and a client with an address and a limit.
pub record IsShapeable (device : Bytes) (c : ClientLimit) : Type 0 where
  pub trimmed : trim_space device ≡ device
  pub named : is_empty device ≡ false
  pub address : is_ip (trim_space c.static_ip) ≡ true
  pub limited : needs_shaping c.static_ip c.rx_bps c.tx_bps ≡ true

plan-nonempty :
    (device : Bytes) (c : ClientLimit) (id : ℕ)
    → IsShapeable device c
    → (length (plan (plan_input device c id)) == 0) ≡ false
unfolding plan needs_shaping
plan-nonempty device c id h = rw (h.trimmed, h.named, h.address) (ground (arith, h.limited))

module _ (runner : Runner) (works : Works runner) (name device : Bytes) (c : ClientLimit)
    (shapeable : IsShapeable device c) where
  install-Settles :
      (id : ℕ) (e : Enforcer) → Settles name device c (install runner name device c id e)
  unfolding install
  install-Settles id e =
      let rules = plan (plan_input device c id) in
      let ran =
        remember_client-Settles name device c id rules
          (run_rules runner false (apply_rules rules) e)
          (run_rules_succeeds runner works false (apply_rules rules) e) in
      elim (Bool-cases (is_tc e.mode)) [
        | inl t ↦
            rw
              (
                plan-nonempty device c id shapeable,
                t,
                bin_available_finds runner works (codes "tc") e,
              )
              ran
        | inr t ↦ rw (plan-nonempty device c id shapeable, t) ran
      ]

  apply_over-Settles :
      (e : Enforcer) (o : Option AppliedClient)
      → lookup c.common_name (clients_of e name) ≡ o
      → Settles name device c (apply_over runner name device c e o)
  unfolding apply_over
  apply_over-Settles e none h =
      install-Settles (alloc_class_id device e).0 (alloc_class_id device e).1
  apply_over-Settles e (some prev) h = elim (Bool-cases (is_unchanged prev device c)) [
    | inl same ↦ rw same (refl, (prev, h, same))
    | inr changed ↦
        rw changed
          (install-Settles prev.class_id (run_rules runner true (remove_rules prev.rules) e).1)
  ]

  -- On a working host, `Apply` in mode `tc` or `log` returns no error and remembers the limits.
  apply-Settles :
      (e : Enforcer)
      → is_silent e.mode ≡ false
      → Settles name device c (apply runner name device c e)
  unfolding apply
  apply-Settles e loud =
      let e1 = ensure_instance name e in
      rw (loud, shapeable.limited, shapeable.trimmed, shapeable.named)
        (apply_over-Settles e1 (lookup c.common_name (clients_of e1 name)) refl)

ensured-known :
    (name cn : Bytes) (e : Enforcer) (o : Option (Assoc AppliedClient)) (a : AppliedClient)
    → lookup name e.applied ≡ o
    → lookup cn (clients_of e name) ≡ some a
    → ensured name e o ≡ e
unfolding ensured lookup
ensured-known name cn e none a h k = absurd (cc (rw h at k))
ensured-known name cn e (some m) a h k = refl

apply_over_settled :
    (runner : Runner) (name device : Bytes) (c : ClientLimit) (e : Enforcer)
    → IsSettled name device c e
    → apply_over runner name device c e (lookup c.common_name (clients_of e name)) ≡ (true, e)
unfolding apply_over
apply_over_settled runner name device c e (a, known, same) = rw (known, apply_over, same)

apply_settled :
    (runner : Runner) (name device : Bytes) (c : ClientLimit) (e : Enforcer)
    → IsShapeable device c
    → IsSettled name device c e
    → apply runner name device c e ≡ (true, e)
unfolding apply ensure_instance
apply_settled runner name device c e h s = elim (Bool-cases (is_silent e.mode)) [
  | inl quiet ↦ rw quiet
  | inr loud ↦
      rw
        (
          loud,
          h.limited,
          h.trimmed,
          h.named,
          ensured-known name c.common_name e (lookup name e.applied) s.0 refl s.1,
        )
        (apply_over_settled runner name device c e s)
]

-- On a host that finds every binary and accepts every command, `Apply` in mode `tc` or `log`, for a
-- client with a valid address and a positive limit and a trimmed device name, returns no error and
-- remembers the client with these limits; a second `Apply`, with any runner, then returns no error and
-- changes nothing.
pub apply-Settles_once :
    (runner again : Runner) (name device : Bytes) (c : ClientLimit) (e : Enforcer)
    → Works runner
    → IsShapeable device c
    → is_silent e.mode ≡ false
    → Settles name device c (apply runner name device c e)
      × (apply again name device c (apply runner name device c e).1
          ≡ (true, (apply runner name device c e).1))
apply-Settles_once runner again name device c e works h loud =
    let first = apply-Settles runner works name device c h e loud in
    (first, apply_settled again name device c (apply runner name device c e).1 h first.1)

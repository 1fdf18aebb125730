-- ===== src/Bandwidth/Moves/Kept.antt =====
-- What no operation changes: another instance's clients and device, and, outside mode `tc`, the host.
use openvpnd.Base.{◌≡◌, ◌≢◌, refl, ◌∙◌, Bool, false, List, arith}
use openvpnd.Base.Text.{Bytes, bytes_eq_iff}
use openvpnd.Base.Assoc.{Assoc, lookup, put, remove, lookup-put, lookup-remove}
use openvpnd.Bandwidth.Plan.{Rule}
use openvpnd.Bandwidth.State.{Runner, Enforcer, is_tc, run_rules, alloc_class_id}
use openvpnd.Bandwidth.Moves.{Move, Moves, run_rules-Rel}

-- The books on clients and devices.
pub record BooksAreKept (e f : Enforcer) : Type 0 where
  pub applied : f.applied ≡ e.applied
  pub devices : f.devices ≡ e.devices
  pub mode : f.mode ≡ e.mode

pub run_rules-BooksAreKept :
    (runner : Runner) (undo : Bool) (rs : List Rule) (e : Enforcer)
    → BooksAreKept e (run_rules runner undo rs e).1
run_rules-BooksAreKept =
    run_rules-Rel (λ e f. BooksAreKept e f)
      (λ e. record { applied = refl; devices = refl; mode = refl })
      (λ e f g a b. record {
        applied = b.applied ∙ a.applied;
        devices = b.devices ∙ a.devices;
        mode = b.mode ∙ a.mode;
      })
      (λ e c t. record { applied = refl; devices = refl; mode = refl })
      (λ e bin t. record { applied = refl; devices = refl; mode = refl })

-- What two states say of another instance.
pub record AgreeOn (other : Bytes) (e f : Enforcer) : Type 0 where
  pub clients : lookup other f.applied ≡ lookup other e.applied
  pub device : lookup other f.devices ≡ lookup other e.devices

module _ {ℓ} {V : Type ℓ} (name other : Bytes) (differ : name ≢ other) (m : Assoc V) where
  put-other : (v : V) → lookup other (put name v m) ≡ lookup other m
  put-other v = ground (arith, lookup-put name other v m, bytes_eq_iff name other, differ)

  remove-other : lookup other (remove name m) ≡ lookup other m
  remove-other = ground (arith, lookup-remove name other m, bytes_eq_iff name other, differ)

module _ {name other : Bytes} (differ : name ≢ other) {W : Bytes → Type 0} where
  Move-AgreeOn : {e f : Enforcer} → Move name W e f → AgreeOn other e f
  Move-AgreeOn (Move.ran e c t) = record { clients = refl; device = refl }
  Move-AgreeOn (Move.missed e bin t) = record { clients = refl; device = refl }
  Move-AgreeOn (Move.touched e) = record {
    clients = put-other name other differ e.applied _;
    device = refl;
  }
  Move-AgreeOn (Move.dropped e cn) = record {
    clients = put-other name other differ e.applied _;
    device = refl;
  }
  Move-AgreeOn (Move.recorded e cn a w i) = record {
    clients = put-other name other differ e.applied _;
    device = refl;
  }
  Move-AgreeOn (Move.allocated e device) =
      unfold alloc_class_id in record { clients = refl; device = refl }
  Move-AgreeOn (Move.forgot e) = record {
    clients = remove-other name other differ e.applied;
    device = refl;
  }
  Move-AgreeOn (Move.device_set e d) = record {
    clients = refl;
    device = put-other name other differ e.devices d;
  }
  Move-AgreeOn (Move.device_dropped e) = record {
    clients = refl;
    device = remove-other name other differ e.devices;
  }

  pub Moves-AgreeOn : {e f : Enforcer} → Moves name W e f → AgreeOn other e f
  Moves-AgreeOn Moves.here = record { clients = refl; device = refl }
  Moves-AgreeOn (Moves.next a s) =
      let before = Moves-AgreeOn a in
      let step = Move-AgreeOn s in
      record { clients = step.clients ∙ before.clients; device = step.device ∙ before.device }

-- The mode stays, and outside mode `tc` so do the host and the missing binaries.
pub record IsQuiet (e f : Enforcer) : Type 0 where
  pub mode : f.mode ≡ e.mode
  pub host : f.host ≡ e.host
  pub missing : f.missing ≡ e.missing

module _ {name : Bytes} {W : Bytes → Type 0} where
  Move-IsQuiet : {e f : Enforcer} → Move name W e f → is_tc e.mode ≡ false → IsQuiet e f
  Move-IsQuiet (Move.ran e c t) h = absurd (cc)
  Move-IsQuiet (Move.missed e bin t) h = absurd (cc)
  Move-IsQuiet (Move.touched e) h = record { mode = refl; host = refl; missing = refl }
  Move-IsQuiet (Move.dropped e cn) h = record { mode = refl; host = refl; missing = refl }
  Move-IsQuiet (Move.recorded e cn a w i) h = record { mode = refl; host = refl; missing = refl }
  Move-IsQuiet (Move.allocated e device) h =
      unfold alloc_class_id in record { mode = refl; host = refl; missing = refl }
  Move-IsQuiet (Move.forgot e) h = record { mode = refl; host = refl; missing = refl }
  Move-IsQuiet (Move.device_set e d) h = record { mode = refl; host = refl; missing = refl }
  Move-IsQuiet (Move.device_dropped e) h = record { mode = refl; host = refl; missing = refl }

  pub Moves-IsQuiet : {e f : Enforcer} → Moves name W e f → is_tc e.mode ≡ false → IsQuiet e f
  Moves-IsQuiet Moves.here h = record { mode = refl; host = refl; missing = refl }
  Moves-IsQuiet (Moves.next a s) h =
      let before = Moves-IsQuiet a h in
      let step = Move-IsQuiet s (rw (before.mode) h) in
      record {
        mode = step.mode ∙ before.mode;
        host = step.host ∙ before.host;
        missing = step.missing ∙ before.missing;
      }

-- ===== src/Bandwidth/Moves.antt =====
-- The enforcer's state changes as a step relation, and that every operation is a chain of such steps.
pub mod Classes
pub mod Operations
pub mod Kept
pub mod Wanted
use openvpnd.Base.{
  ℕ, ◌+◌, ◌≤◌, ◌≡◌, ◌⊎◌, inl, inr, refl, Bool, true, false, not, ◌||◌, Option, none, some, List, [],
  ◌∷◌, arith, Holds, Bool-cases, Option-cases, if_lem, if◌then◌else◌,
}
use openvpnd.Base.Text.{Bytes, codes, bytes_eq}
use openvpnd.Base.Assoc.{Assoc, lookup, put, remove}
use openvpnd.Bandwidth.Plan.{Mode, Rule, is_empty}
use openvpnd.Bandwidth.State.{
  Command, Runner, AppliedClient, AppliedDevice, Enforcer, Step, Outcome, clients_of, set_clients,
  is_tc, mark_missing, record_command, run_found, run_rule, after_step, found, run_rules,
  bin_available, alloc_class_id,
}

-- The ids that the allocator hands out.
abbrev pub IsClassId : ℕ → Type 0
IsClassId n = (10 ≤ n) × (n ≤ 9000)

-- One change by an operation on the instance `name` that may set up the clients in `W`.
pub data Move (name : Bytes) (W : Bytes → Type 0) : Enforcer → Enforcer → Type 0 where
  ran : (e : Enforcer) (c : Command) → is_tc e.mode ≡ true → Move name W e (record_command c e)
  missed : (e : Enforcer) (bin : Bytes) → is_tc e.mode ≡ true → Move name W e (mark_missing bin e)
  touched : (e : Enforcer) → Move name W e (set_clients name (clients_of e name) e)
  dropped :
      (e : Enforcer) (cn : Bytes)
      → Move name W e (set_clients name (remove cn (clients_of e name)) e)
  recorded :
      (e : Enforcer) (cn : Bytes) (a : AppliedClient)
      → W cn
      → IsClassId a.class_id
      → Move name W e (set_clients name (put cn a (clients_of e name)) e)
  allocated : (e : Enforcer) (device : Bytes) → Move name W e (alloc_class_id device e).1
  forgot : (e : Enforcer) → Move name W e (record e { applied = remove name e.applied })
  device_set :
      (e : Enforcer) (d : AppliedDevice)
      → Move name W e (record e { devices = put name d e.devices })
  device_dropped : (e : Enforcer) → Move name W e (record e { devices = remove name e.devices })

pub data Moves (name : Bytes) (W : Bytes → Type 0) (e : Enforcer) : Enforcer → Type 0 where
  here : Moves name W e e
  next : {f g : Enforcer} → Moves name W e f → Move name W f g → Moves name W e g

module _ {name : Bytes} {W : Bytes → Type 0} where
  pub one : {e f : Enforcer} → Move name W e f → Moves name W e f
  one s = Moves.next Moves.here s

  infixr 20 ◌then◌
  pub ◌then◌ : {e f g : Enforcer} → Moves name W e f → Moves name W f g → Moves name W e g
  a then Moves.here = a
  a then Moves.next b s = Moves.next (a then b) s

-- The relation between the state before a rule and the one after, whether or not the next follows.
StepRel : (Enforcer → Enforcer → Type 0) → Enforcer → Step → Type 0
StepRel Rel e (Step.continue f) = Rel e f
StepRel Rel e (Step.stop ok f) = Rel e f

-- What holds of every command that is run and of every binary that is found missing, in mode `tc`,
-- holds of running rules, when it is reflexive and transitive.
module _ (Rel : Enforcer → Enforcer → Type 0) (same : (e : Enforcer) → Rel e e)
    (trans : (e f g : Enforcer) → Rel e f → Rel f g → Rel e g)
    (ran : (e : Enforcer) (c : Command) → is_tc e.mode ≡ true → Rel e (record_command c e))
    (missed : (e : Enforcer) (bin : Bytes) → is_tc e.mode ≡ true → Rel e (mark_missing bin e)) where
  run_found-Rel :
      (runner : Runner) (undo : Bool) (r : Rule) (e : Enforcer) (o : Option Bytes)
      → is_tc e.mode ≡ true
      → StepRel Rel e (run_found runner undo r e o)
  unfolding run_found StepRel
  run_found-Rel runner undo r e none t = missed e r.bin t
  run_found-Rel runner undo r e (some path) t =
      let c : Command = record { path = path; args = r.args } in
      if_lem (StepRel Rel e) (runner.succeeds e.host c || undo) (λ h. ran e c t) (λ h. ran e c t)

  run_rule-Rel :
      (runner : Runner) (undo : Bool) (r : Rule) (e : Enforcer)
      → StepRel Rel e (run_rule runner undo r e)
  unfolding run_rule
  run_rule-Rel runner undo r e =
      if_lem (StepRel Rel e) (is_empty r.bin || not (is_tc e.mode)) (λ h. unfold StepRel in same e)
        (λ h. run_found-Rel runner undo r e (runner.look_path e.host r.bin) (ground arith))

  after_step-Rel :
      (e : Enforcer) (s : Step) (k : Enforcer → Outcome)
      → StepRel Rel e s
      → ((f : Enforcer) → Rel f (k f).1)
      → Rel e (after_step k s).1
  unfolding StepRel after_step
  after_step-Rel e (Step.continue f) k h m = trans e f (k f).1 h (m f)
  after_step-Rel e (Step.stop ok f) k h m = h

  -- Running rules runs commands or marks a binary missing, in mode `tc` only.
  pub run_rules-Rel :
      (runner : Runner) (undo : Bool) (rs : List Rule) (e : Enforcer)
      → Rel e (run_rules runner undo rs e).1
  unfolding run_rules
  run_rules-Rel runner undo [] e = same e
  run_rules-Rel runner undo (r ∷ rs) e =
      after_step-Rel e (run_rule runner undo r e) (λ f. run_rules runner undo rs f)
        (run_rule-Rel runner undo r e) (λ f. run_rules-Rel runner undo rs f)

  found-Rel :
      (bin : Bytes) (e : Enforcer) (o : Option Bytes)
      → is_tc e.mode ≡ true
      → Rel e (found bin e o).1
  unfolding found
  found-Rel bin e none t = missed e bin t
  found-Rel bin e (some path) t = same e

  pub bin_available-Rel :
      (runner : Runner) (bin : Bytes) (e : Enforcer)
      → is_tc e.mode ≡ true
      → Rel e (bin_available runner bin e).1
  unfolding bin_available
  bin_available-Rel runner bin e t = found-Rel bin e (runner.look_path e.host bin) t

module _ (name : Bytes) (W : Bytes → Type 0) where
  pub run_rules-Moves :
      (runner : Runner) (undo : Bool) (rs : List Rule) (e : Enforcer)
      → Moves name W e (run_rules runner undo rs e).1
  run_rules-Moves =
      run_rules-Rel (λ e f. Moves name W e f) (λ e. Moves.here) (λ e f g a b. a then b)
        (λ e c t. one (Move.ran e c t)) (λ e bin t. one (Move.missed e bin t))

  pub bin_available-Moves :
      (runner : Runner) (bin : Bytes) (e : Enforcer)
      → is_tc e.mode ≡ true
      → Moves name W e (bin_available runner bin e).1
  bin_available-Moves =
      bin_available-Rel (λ e f. Moves name W e f) (λ e. Moves.here) (λ e f g a b. a then b)
        (λ e c t. one (Move.ran e c t)) (λ e bin t. one (Move.missed e bin t))

-- ===== src/Bandwidth/State.antt =====
-- What the enforcer remembers of the rules it has run, and how it runs rules
-- (internal/bandwidth/enforcer.go). The runner of host commands is a parameter: each answer may depend
-- on the commands run before it. Log output is not modelled.
use openvpnd.Base.{
  ℕ, ◌+◌, Bool, true, false, not, ◌&&◌, ◌||◌, Option, none, some, List, [], ◌∷◌, ltb, length,
  if◌then◌else◌,
}
use openvpnd.Base.Int.{ℤ, leb_ℤ}
use openvpnd.Base.Text.{Bytes}
use openvpnd.Base.Assoc.{Assoc, lookup, put}
use openvpnd.Bandwidth.Plan.{Mode, Rule, is_empty}

pub record Command : Type 0 where
  pub path : Bytes
  pub args : List Bytes

-- `Runner`: both answers may depend on the commands run so far, the last one first.
pub record Runner : Type 0 where
  pub look_path : List Command → Bytes → Option Bytes
  pub succeeds : List Command → Command → Bool

pub record AppliedClient : Type 0 where
  pub static_ip : Bytes
  pub rx_bps : ℤ
  pub tx_bps : ℤ
  pub class_id : ℕ
  pub device : Bytes
  pub rules : List Rule

pub record AppliedDevice : Type 0 where
  pub device : Bytes
  pub rx_bps : ℤ
  pub tx_bps : ℤ
  pub rules : List Rule

-- `host` is not a field of the source: the commands that the runner has been given.
pub record Enforcer : Type 0 where
  pub mode : Mode
  pub applied : Assoc (Assoc AppliedClient)
  pub devices : Assoc AppliedDevice
  pub next_cls : Assoc ℕ
  pub missing : Assoc Bool
  pub host : List Command

unfoldable pub new_enforcer : Mode → Enforcer
new_enforcer mode = record {
  mode = mode;
  applied = [];
  devices = [];
  next_cls = [];
  missing = [];
  host = [];
}

-- A missing map reads as the empty one.
abbrev pub or_empty : Option (Assoc AppliedClient) → Assoc AppliedClient
or_empty none = []
or_empty (some m) = m

abbrev pub clients_of : Enforcer → Bytes → Assoc AppliedClient
clients_of e name = or_empty (lookup name e.applied)

unfoldable pub applied_count : Enforcer → Bytes → ℕ
applied_count e name = length (clients_of e name)

-- Whether an operation returned no error, with the state it leaves.
abbrev pub Outcome : Type 0
Outcome = Bool × Enforcer

abbrev pub is_tc : Mode → Bool
is_tc Mode.tc = true
is_tc m = false

-- `off` and `shaper` plan nothing.
abbrev pub is_silent : Mode → Bool
is_silent Mode.off = true
is_silent Mode.shaper = true
is_silent m = false

abbrev pub mark_missing : Bytes → Enforcer → Enforcer
mark_missing bin e = record e { missing = put bin true e.missing }

abbrev pub record_command : Command → Enforcer → Enforcer
record_command c e = record e { host = c ∷ e.host }

-- One rule: whether to go on, whether without an error, and the state.
pub data Step : Type 0 where
  continue : Enforcer → Step
  stop : Bool → Enforcer → Step

unfoldable pub run_found : Runner → Bool → Rule → Enforcer → Option Bytes → Step
run_found runner undo r e none = Step.stop true (mark_missing r.bin e)
run_found runner undo r e (some path) =
    let c : Command = record { path = path; args = r.args } in
    let after = record_command c e in
    if runner.succeeds e.host c || undo then Step.continue after else Step.stop false after

unfoldable pub run_rule : Runner → Bool → Rule → Enforcer → Step
unfolding run_found
run_rule runner undo r e =
    if is_empty r.bin || not (is_tc e.mode)
    then Step.continue e
    else run_found runner undo r e (runner.look_path e.host r.bin)

unfoldable pub after_step : (Enforcer → Outcome) → Step → Outcome
after_step k (Step.continue e) = k e
after_step k (Step.stop ok e) = (ok, e)

-- `runRules`.
unfoldable pub run_rules : Runner → Bool → List Rule → Enforcer → Outcome
unfolding run_rule after_step
run_rules runner undo [] e = (true, e)
run_rules runner undo (r ∷ rs) e =
    after_step (λ f. run_rules runner undo rs f) (run_rule runner undo r e)

unfoldable pub found : Bytes → Enforcer → Option Bytes → Outcome
found bin e none = (false, mark_missing bin e)
found bin e (some path) = (true, e)

unfoldable pub bin_available : Runner → Bytes → Enforcer → Outcome
unfolding found
bin_available runner bin e = found bin e (runner.look_path e.host bin)

-- `allocClassID`.
unfoldable pub class_start : Option ℕ → ℕ
class_start none = 10
class_start (some id) = if ltb id 10 then 10 else id

unfoldable pub alloc_class_id : Bytes → Enforcer → ℕ × Enforcer
unfolding class_start
alloc_class_id device e =
    let id = class_start (lookup device e.next_cls) in
    let next = if ltb 9000 (id + 1) then 10 else id + 1 in
    (id, record e { next_cls = put device next e.next_cls })

abbrev pub set_clients : Bytes → Assoc AppliedClient → Enforcer → Enforcer
set_clients name m e = record e { applied = put name m e.applied }

abbrev pub same_ℤ : ℤ → ℤ → Bool
same_ℤ a b = leb_ℤ a b && leb_ℤ b a

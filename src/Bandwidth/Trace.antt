-- ===== src/Bandwidth/Trace.antt =====
-- Traces of enforcer operations, on any instances, and what holds along every trace.
use openvpnd.Base.{◌≡◌, ◌≢◌, refl, ◌∙◌, false, List, [], ◌∷◌}
use openvpnd.Base.Int.{ℤ}
use openvpnd.Base.Text.{Bytes}
use openvpnd.Base.Assoc.{lookup}
use openvpnd.Bandwidth.Plan.{Mode, ClientLimit}
use openvpnd.Bandwidth.State.{Runner, Enforcer, new_enforcer, is_tc}
use openvpnd.Bandwidth.Devices.{clear_device, sync_device}
use openvpnd.Bandwidth.Enforcer.{remove_client, apply, sync, clear_instance, desired}
use openvpnd.Bandwidth.Moves.{Moves}
use openvpnd.Bandwidth.Moves.Classes.{IsWellFormed, Moves-IsWellFormed}
use openvpnd.Bandwidth.Moves.Operations.{
  remove_client-Moves, apply-Moves, clear_device-Moves, clear_instance-Moves, sync_device-Moves,
}
use openvpnd.Bandwidth.Moves.Wanted.{IsIn, sync-Moves}
use openvpnd.Bandwidth.Moves.Kept.{AgreeOn, Moves-AgreeOn, Moves-IsQuiet}

-- The calls that the reconciler makes.
pub data Operation : Type 0 where
  sync_clients : Bytes → List ClientLimit → Operation
  apply_one : Bytes → ClientLimit → Operation
  remove_one : Bytes → Operation
  shape_device : Bytes → ℤ → ℤ → Operation
  clear_shaping : Operation
  clear_all : Operation

unfoldable pub perform : Runner → Bytes → Operation → Enforcer → Enforcer
unfolding sync apply remove_client sync_device clear_device clear_instance
perform runner name (Operation.sync_clients device cs) e = sync runner name device cs e
perform runner name (Operation.apply_one device c) e = (apply runner name device c e).1
perform runner name (Operation.remove_one cn) e = remove_client runner name cn e
perform runner name (Operation.shape_device device rx tx) e =
    (sync_device runner name device rx tx e).1
perform runner name Operation.clear_shaping e = clear_device runner name e
perform runner name Operation.clear_all e = clear_instance runner name e

unfoldable pub perform_all : Runner → List (Bytes × Operation) → Enforcer → Enforcer
perform_all runner [] e = e
perform_all runner ((name, op) ∷ ops) e = perform_all runner ops (perform runner name op e)

-- The clients that an operation may set up.
Allowed : Operation → Bytes → Type 0
Allowed (Operation.sync_clients device cs) = IsIn (desired cs)
Allowed op = λ cn. Unit

perform-Moves :
    (runner : Runner) (name : Bytes) (op : Operation) (e : Enforcer)
    → IsWellFormed e
    → Moves name (Allowed op) e (perform runner name op e)
unfolding perform Allowed
perform-Moves runner name (Operation.sync_clients device cs) e w =
    sync-Moves runner name device cs e w
perform-Moves runner name (Operation.apply_one device c) e w =
    apply-Moves runner name (λ cn. Unit) device c e tt w
perform-Moves runner name (Operation.remove_one cn) e w =
    remove_client-Moves runner name (λ cn. Unit) cn e
perform-Moves runner name (Operation.shape_device device rx tx) e w =
    sync_device-Moves runner name (λ cn. Unit) device rx tx e
perform-Moves runner name Operation.clear_shaping e w =
    clear_device-Moves runner name (λ cn. Unit) e
perform-Moves runner name Operation.clear_all e w = clear_instance-Moves runner name (λ cn. Unit) e

pub new_enforcer-IsWellFormed : (mode : Mode) → IsWellFormed (new_enforcer mode)
unfolding new_enforcer lookup
new_enforcer-IsWellFormed mode = record { remembered = λ name k. tt; upcoming = λ k. tt }

-- Every operation keeps the class ids of remembered clients, and the next id of every device,
-- between 10 and 9000.
pub perform-IsWellFormed :
    (runner : Runner) (name : Bytes) (op : Operation) (e : Enforcer)
    → IsWellFormed e
    → IsWellFormed (perform runner name op e)
perform-IsWellFormed runner name op e w = Moves-IsWellFormed (perform-Moves runner name op e w) w

trace-IsWellFormed :
    (runner : Runner) (ops : List (Bytes × Operation)) (e : Enforcer)
    → IsWellFormed e
    → IsWellFormed (perform_all runner ops e)
unfolding perform_all
trace-IsWellFormed runner [] e w = w
trace-IsWellFormed runner ((name, op) ∷ ops) e w =
    trace-IsWellFormed runner ops _ (perform-IsWellFormed runner name op e w)

-- From a new enforcer on, in every sequence of operations on any instances and with any runner, the
-- class ids of remembered clients and the next id of every device lie between 10 and 9000.
pub perform_all-IsWellFormed :
    (runner : Runner) (mode : Mode) (ops : List (Bytes × Operation))
    → IsWellFormed (perform_all runner ops (new_enforcer mode))
perform_all-IsWellFormed runner mode ops =
    trace-IsWellFormed runner ops (new_enforcer mode) (new_enforcer-IsWellFormed mode)

-- With well-formed class ids, an operation on one instance leaves the clients and the device of every other
-- instance.
pub perform-AgreeOn :
    (runner : Runner) (name other : Bytes) (op : Operation) (e : Enforcer)
    → IsWellFormed e
    → name ≢ other
    → AgreeOn other e (perform runner name op e)
perform-AgreeOn runner name other op e w differ =
    Moves-AgreeOn differ (perform-Moves runner name op e w)

trace-IsQuiet :
    (runner : Runner) (ops : List (Bytes × Operation)) (e : Enforcer)
    → IsWellFormed e
    → is_tc e.mode ≡ false
    → (perform_all runner ops e).host ≡ e.host
unfolding perform_all
trace-IsQuiet runner [] e w h = refl
trace-IsQuiet runner ((name, op) ∷ ops) e w h =
    let quiet = Moves-IsQuiet (perform-Moves runner name op e w) h in
    trace-IsQuiet runner ops (perform runner name op e) (perform-IsWellFormed runner name op e w)
      (rw (quiet.mode) h)
    ∙ quiet.host

-- In every mode but `tc`, no sequence of operations runs a command on the host.
pub perform_all_quiet :
    (runner : Runner) (mode : Mode) (ops : List (Bytes × Operation))
    → is_tc mode ≡ false
    → (perform_all runner ops (new_enforcer mode)).host ≡ []
unfolding new_enforcer
perform_all_quiet runner mode ops h =
    trace-IsQuiet runner ops (new_enforcer mode) (new_enforcer-IsWellFormed mode) h

-- ===== src/Reconcile/Orphans.antt =====
-- What a pass does about processes that no instance of the store stands for
-- (internal/reconcile/reconciler.go).
use mathlib.Core.Path.{subst}
use openvpnd.Base.{
  ◌≡◌, ◌≢◌, refl, sym, ap, ◌∙◌, Bool, true, false, ◌||◌, none, List, [], ◌∷◌, if_lem, arith,
  if◌then◌else◌, Bool-cases, inl, inr,
}
use openvpnd.Base.Text.{Bytes, bytes_eq, bytes_eq_iff, bytes_eq→eq, bytes_eq_refl}
use openvpnd.Base.Sort.{member}
use openvpnd.Base.Assoc.{lookup}
use openvpnd.Bandwidth.State.{Runner}
use openvpnd.Bandwidth.Enforcer.{clear_instance}
use openvpnd.Bandwidth.Moves.Classes.{IsWellFormed}
use openvpnd.Bandwidth.Synced.{clear_instance-empty}
use openvpnd.Bandwidth.Trace.{Operation, perform, perform-AgreeOn}
use openvpnd.Backend.{LiveInstance}
use openvpnd.Reconcile.{Config, Answers, Call, Reconciler, call}
use openvpnd.Reconcile.Observed.{listed}
use openvpnd.Reconcile.Run.{apply_all, instance_names, remove_orphans, run}
use openvpnd.Reconcile.Limits.{apply_all-IsWellFormed, clear_instance-IsWellFormed}

abbrev pub live_names : List LiveInstance → List Bytes
live_names [] = []
live_names (l ∷ ls) = l.name ∷ live_names ls

abbrev pub is_removed : Bytes → List Call → Bool
is_removed name [] = false
is_removed name (Call.remove n ∷ cs) = bytes_eq n name || is_removed name cs
is_removed name (c ∷ cs) = is_removed name cs

-- The process has been removed, and nothing is remembered of its limits.
abbrev pub IsGone : Bytes → Reconciler → Type 0
IsGone name r =
    (is_removed name r.calls ≡ true)
    × (lookup name r.bw.applied ≡ none)
    × (lookup name r.bw.devices ≡ none)

true-ne-false : ¬ (true ≡ false)
true-ne-false h = cc

-- An orphan has been removed.
abbrev removed : Runner → Bytes → Reconciler → Reconciler
removed runner name r = record (call (Call.remove name) r) { bw = clear_instance runner name r.bw }

removed-IsGone :
    (runner : Runner) (name : Bytes) (r : Reconciler) → IsGone name (removed runner name r)
removed-IsGone runner name r =
    let cleared = clear_instance-empty runner name r.bw in
    (rw (bytes_eq_refl name) refl, cleared.0, cleared.1)

other-IsGone :
    (runner : Runner) (other name : Bytes) (r : Reconciler)
    → IsWellFormed r.bw
    → other ≢ name
    → IsGone name r
    → IsGone name (removed runner other r)
unfolding perform
other-IsGone runner other name r w differ g =
    let agree = perform-AgreeOn runner other name Operation.clear_all r.bw w differ in
    (ground (arith, g.0), agree.clients ∙ g.1, agree.device ∙ g.2)

removed-keeps :
    (runner : Runner) (other name : Bytes) (r : Reconciler)
    → IsWellFormed r.bw
    → IsGone name r
    → IsGone name (removed runner other r)
removed-keeps runner other name r w g = elim (Bool-cases (bytes_eq other name)) [
  | inl e ↦
      subst (λ n. IsGone n (removed runner other r)) (bytes_eq→eq other name e)
        (removed-IsGone runner other r)
  | inr e ↦ other-IsGone runner other name r w (λ k. ground (arith, e, bytes_eq_iff other name)) g
]

-- The state before a round, and after it.
abbrev step : Runner → List Bytes → LiveInstance → Reconciler → Reconciler
step runner names l r = if member l.name names then r else removed runner l.name r

step-IsWellFormed :
    (runner : Runner) (names : List Bytes) (l : LiveInstance) (r : Reconciler)
    → IsWellFormed r.bw
    → IsWellFormed ((step runner names l r).bw)
step-IsWellFormed runner names l r w =
    if_lem (λ (x : Reconciler). IsWellFormed x.bw) (member l.name names) (λ _. w)
      (λ _. clear_instance-IsWellFormed runner l.name r.bw w)

remove_orphans-keeps :
    (runner : Runner) (names : List Bytes) (name : Bytes) (ls : List LiveInstance) (r : Reconciler)
    → IsWellFormed r.bw
    → IsGone name r
    → IsGone name (remove_orphans runner names ls r)
unfolding remove_orphans
remove_orphans-keeps runner names name [] r w g = g
remove_orphans-keeps runner names name (l ∷ ls) r w g =
    remove_orphans-keeps runner names name ls (step runner names l r)
      (step-IsWellFormed runner names l r w)
      (if_lem (IsGone name) (member l.name names) (λ _. g)
        (λ _. removed-keeps runner l.name name r w g))

remove_orphans-IsGone :
    (runner : Runner) (names : List Bytes) (name : Bytes) (ls : List LiveInstance) (r : Reconciler)
    → IsWellFormed r.bw
    → member name names ≡ false
    → member name (live_names ls) ≡ true
    → IsGone name (remove_orphans runner names ls r)
unfolding remove_orphans member
remove_orphans-IsGone runner names name [] r w h k = absurd (ground arith)
remove_orphans-IsGone runner names name (l ∷ ls) r w h k =
    let kept = step-IsWellFormed runner names l r w in
    elim (Bool-cases (bytes_eq l.name name)) [
      | inl e ↦
          let same = bytes_eq→eq l.name name e in
          remove_orphans-keeps runner names name ls (step runner names l r) kept (
            if_lem (IsGone name) (member l.name names)
              (λ t. absurd (true-ne-false (sym t ∙ ap (λ n. member n names) same ∙ h)))
              (λ _.
                subst (λ n. IsGone n (removed runner l.name r)) same
                  (removed-IsGone runner l.name r)))
      | inr e ↦
          remove_orphans-IsGone runner names name ls (step runner names l r) kept h
            (ground (arith, e, k))
    ]

-- A pass over a store without an instance of the name removes a live process of that name, and its limits
-- with it: nothing is remembered of its clients or its device, whatever the host answers, when the class ids
-- are well-formed before the pass.
pub run-IsGone :
    (runner : Runner) (cfg : Config) (answers : Answers) (name : Bytes) (r : Reconciler)
    → IsWellFormed r.bw
    → member name (instance_names r.store.instances) ≡ false
    → member name (live_names (listed answers)) ≡ true
    → IsGone name (run runner cfg answers r)
unfolding run
run-IsGone runner cfg answers name r w h k =
    remove_orphans-IsGone runner (instance_names r.store.instances) name (listed answers)
      (apply_all runner cfg answers r.store.instances r)
      (apply_all-IsWellFormed runner cfg answers r.store.instances r w) h k

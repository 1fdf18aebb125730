-- ===== src/Reconcile/Settled.antt =====
-- What a pass has done about clients that are to be suspended (internal/reconcile/reconciler.go).
use mathlib.Core.Path.{subst, ap₂}
use openvpnd.Base.{
  ℕ, ◌≡◌, refl, sym, ap, ◌∙◌, inl, inr, Bool, true, false, ◌&&◌, ◌||◌, Option, none, some, List, [],
  ◌∷◌, ◌++◌, map, All, Option-cases, arith, if◌then◌else◌,
}
use openvpnd.Base.Int.{ℤ}
use openvpnd.Base.Text.{Bytes, bytes_eq}
use openvpnd.Models.{Client}
use openvpnd.Policy.{Reason, should_auto_suspend}
use openvpnd.Backend.{LiveClient}
use openvpnd.Reconcile.{Answers, Event, Call, Reconciler, call, rows}
use openvpnd.Reconcile.Stored.{
  turned, sampled, suspend_clients-rows, suspend_clients-other, sample_client-rows,
}
use openvpnd.Reconcile.Suspend.{
  suspend_client, suspend_clients, suspend_for, suspended_client, mark, suspend_event,
}
use openvpnd.Reconcile.Sampling.{
  is_some, sample_client, client_counters, counted, record_client, Counters, remember_client,
}

-- The store accepts every suspension.
abbrev pub Accepts : Answers → Type 0
Accepts answers = (id : ℕ) → answers.can_suspend id ≡ true

-- The client is not to be suspended any more.
abbrev pub IsSettled : ℤ → Client → Type 0
IsSettled now c = should_auto_suspend c now ≡ none

-- What the policy makes of a client.
abbrev pub judged : ℤ → Client → Client
judged now c = mark (is_some (should_auto_suspend c now)) c

abbrev event_for : Bytes → Client → Option Reason → List Event
event_for name c none = []
event_for name c (some reason) = suspend_event name c reason ∷ []

-- An event for each suspension, the last one first.
abbrev pub suspend_events : ℤ → Bytes → List Client → List Event → List Event
suspend_events now name [] events = events
suspend_events now name (c ∷ cs) events =
    suspend_events now name cs (event_for name c (should_auto_suspend c now) ++ events)

suspended-IsSettled : (now : ℤ) (c : Client) → IsSettled now (suspended_client c)
unfolding should_auto_suspend
suspended-IsSettled now c = refl

judged-IsSettled : (now : ℤ) (c : Client) → IsSettled now (judged now c)
judged-IsSettled now c = elim (Option-cases (should_auto_suspend c now)) [
  | inl e ↦ subst (λ o. IsSettled now (mark (is_some o) c)) (sym e) e
  | inr (reason, e) ↦
      subst (λ o. IsSettled now (mark (is_some o) c)) (sym e) (suspended-IsSettled now c)
]

-- A single client, when the store accepts its suspension.
suspend_for-accepted :
    (answers : Answers) (name : Bytes) (c : Client) (o : Option Reason) (r : Reconciler)
    → answers.can_suspend c.id ≡ true
    → ((suspend_for answers name c o r).0 ≡ is_some o)
      × ((suspend_for answers name c o r).1.store.events ≡ event_for name c o ++ r.store.events)
      × ((suspend_for answers name c o r).1.calls ≡ r.calls)
suspend_for-accepted answers name c none r h = (refl, refl, refl)
suspend_for-accepted answers name c (some reason) r h = rw h (refl, refl, refl)

suspend_clients_list :
    (answers : Answers) (name : Bytes) (cs : List Client) (r : Reconciler)
    → Accepts answers
    → ((suspend_clients answers name cs r).0 ≡ map (judged answers.now) cs)
      × ((suspend_clients answers name cs r).1.store.events
          ≡ suspend_events answers.now name cs r.store.events)
      × All (IsSettled answers.now) ((suspend_clients answers name cs r).0)
unfolding suspend_clients suspend_client
suspend_clients_list answers name [] r h = (refl, refl, tt)
suspend_clients_list answers name (c ∷ cs) r h =
    let o = should_auto_suspend c answers.now in
    let first = suspend_for-accepted answers name c o r (h c.id) in
    let rest = suspend_clients_list answers name cs ((suspend_for answers name c o r).1) h in
    let here : mark ((suspend_for answers name c o r).0) c ≡ judged answers.now c =
      ap (λ b. mark b c) first.0 in
    (
      ap₂ (λ d ds. d ∷ ds) here rest.0,
      rest.1 ∙ ap (suspend_events answers.now name cs) first.1,
      (subst (IsSettled answers.now) (sym here) (judged-IsSettled answers.now c), rest.2),
    )

-- The rows of the other instances are as they were.
abbrev pub OthersStay : Bytes → Reconciler → Reconciler → Type 0
OthersStay name r after =
    (other : Bytes) → bytes_eq name other ≡ false → rows after other ≡ rows r other

-- When the store accepts suspensions, the loop suspends exactly the clients that the policy names: those of the
-- list, and in the store the rows of the instance with their ids, while the rows of other instances stay. It
-- records an event for each of them in turn, and leaves no client that is still to be suspended.
pub suspend_clients-judged :
    (answers : Answers) (name : Bytes) (cs : List Client) (r : Reconciler)
    → Accepts answers
    → ((suspend_clients answers name cs r).0 ≡ map (judged answers.now) cs)
      × (rows ((suspend_clients answers name cs r).1) name
          ≡ map (turned answers.now cs) (rows r name))
      × OthersStay name r ((suspend_clients answers name cs r).1)
      × ((suspend_clients answers name cs r).1.store.events
          ≡ suspend_events answers.now name cs r.store.events)
      × All (IsSettled answers.now) ((suspend_clients answers name cs r).0)
suspend_clients-judged answers name cs r h =
    let done = suspend_clients_list answers name cs r h in
    (
      done.0,
      suspend_clients-rows answers name cs r h,
      (λ other k. suspend_clients-other answers name other cs r k),
      done.1,
      done.2,
    )

counted-mark : (n : Counters) (b : Bool) (c : Client) → counted n (mark b c) ≡ mark b (counted n c)
counted-mark n true c = refl
counted-mark n false c = refl

mark_suspended : (b : Bool) (c : Client) → (mark b c).suspended ≡ (c.suspended || b)
mark_suspended true c = ground arith
mark_suspended false c = ground arith

mark_common_name : (b : Bool) (c : Client) → (mark b c).common_name ≡ c.common_name
mark_common_name true c = refl
mark_common_name false c = refl

kill_if :
    (b : Bool) (k : Call) (r : Reconciler)
    → (if b then call k r else r).calls ≡ (if b then k ∷ r.calls else r.calls)
kill_if true k r = refl
kill_if false k r = refl

record_client_calls :
    (answers : Answers) (name : Bytes) (d : Client) (found : Option LiveClient) (n : Counters)
    (r : Reconciler)
    → (record_client answers name d found n r).calls ≡ (
        if is_some found && d.suspended && answers.can_kill name
        then Call.kill name d.common_name ∷ r.calls
        else r.calls)
record_client_calls answers name d none n r = refl
record_client_calls answers name d (some l) n r =
    kill_if (true && d.suspended && answers.can_kill name) (Call.kill name d.common_name) r

remember_client_calls :
    (answers : Answers) (name : Bytes) (c : Client) (found : Option LiveClient) (r : Reconciler)
    → (remember_client answers name c found r).calls ≡ r.calls
remember_client_calls answers name c none r = refl
remember_client_calls answers name c (some l) r = refl

-- A client whose counters of the pass, or whose time, call for its suspension is suspended in the pass, when
-- the store accepts it: the row of its id is suspended and has the counters, and no other row of the instance
-- changes. A client that is suspended then and connected is disconnected in the same pass, when the management
-- interface can be reached, while no other client is.
pub sample_client-settles :
    (answers : Answers) (name : Bytes) (found : Option LiveClient) (c : Client) (r : Reconciler)
    → answers.can_suspend c.id ≡ true
    → IsSettled answers.now (
        counted (client_counters answers name c found r) ((sample_client answers name found c r).0))
      × ((sample_client answers name found c r).0.suspended ≡ (
          c.suspended
          || is_some (
              should_auto_suspend
                (counted (client_counters answers name c found r) c)
                answers.now)))
      × (rows ((sample_client answers name found c r).1) name
          ≡ map
              (sampled
                (client_counters answers name c found r)
                (should_auto_suspend
                  (counted (client_counters answers name c found r) c)
                  answers.now)
                c.id)
              (rows r name))
      × ((sample_client answers name found c r).1.calls ≡ (
          if is_some found
            && (sample_client answers name found c r).0.suspended
            && answers.can_kill name
          then Call.kill name c.common_name ∷ r.calls
          else r.calls))
unfolding sample_client suspend_client
sample_client-settles answers name found c r h =
    let n = client_counters answers name c found r in
    let o = should_auto_suspend (counted n c) answers.now in
    let r1 = remember_client answers name c found r in
    let first = suspend_for-accepted answers name (counted n c) o r1 h in
    let b = (suspend_for answers name (counted n c) o r1).0 in
    let r2 = (suspend_for answers name (counted n c) o r1).1 in
    let calls = first.2 ∙ remember_client_calls answers name c found r in
    (
      subst (IsSettled answers.now) (sym (counted-mark n b c)) (
          subst (λ x. IsSettled answers.now (mark x (counted n c))) (sym first.0)
            (judged-IsSettled answers.now (counted n c))),
      mark_suspended b c ∙ ap (λ x. c.suspended || x) first.0,
      sample_client-rows answers name found c r h,
      record_client_calls answers name (mark b c) found n r2
          ∙ ap₂
              (λ cn cs.
                if is_some found && (mark b c).suspended && answers.can_kill name
                then Call.kill name cn ∷ cs
                else cs)
              (mark_common_name b c) calls,
    )

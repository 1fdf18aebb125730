-- ===== src/Reconcile/Quiet.antt =====
-- When no event is recorded (internal/reconcile/reconciler.go).
use mathlib.Core.Path.{subst}
use openvpnd.Base.{
  ℕ, ◌+◌, ◌≤◌, ◌≡◌, ◌↔◌, refl, sym, ap, ◌∙◌, inl, inr, Bool, true, false, some, List, [], ◌∷◌, All,
  length, arith, Bool-cases, if◌then◌else◌,
}
use openvpnd.Base.Text.{Bytes, bytes_eq, bytes_eq_refl, bytes_eq→eq}
use openvpnd.Base.Sort.{member}
use openvpnd.Base.Assoc.{Assoc, lookup, put, lookup-put}
use openvpnd.Backend.{LiveClient}
use openvpnd.Reconcile.{Event, Reconciler, add_event}
use openvpnd.Reconcile.Edges.{
  connected, emit_missing, peer_edges, or_nobody, peers_before, connect_event, disconnect_event,
}

-- All names of the one list are in the other.
abbrev AreIn : List Bytes → List Bytes → Type 0
AreIn others = All (λ cn. member cn others ≡ true)

emit_missing_none :
    (event : Bytes → Event) (others cns : List Bytes) (r : Reconciler)
    → AreIn others cns
    → emit_missing event others cns r ≡ r
unfolding emit_missing
emit_missing_none event others [] r h = refl
emit_missing_none event others (cn ∷ cns) r h = rw h.0 (emit_missing_none event others cns r h.1)

-- The same names, in any order.
abbrev pub SameNames : List LiveClient → List LiveClient → Type 0
SameNames live after = (cn : Bytes) → member cn (connected live) ≡ member cn (connected after)

members_of :
    (xs others : List Bytes)
    → ((cn : Bytes) → member cn xs ≡ true → member cn others ≡ true)
    → AreIn others xs
unfolding member
members_of [] others h = tt
members_of (x ∷ xs) others h =
    (h x (rw (bytes_eq_refl x) refl), members_of xs others (λ cn k. h cn (ground (arith, k))))

lookup-put_same :
    (k : Bytes) (v : List Bytes) (m : Assoc (List Bytes)) → lookup k (put k v m) ≡ some v
lookup-put_same k v m =
    lookup-put k k v m ∙ ap (λ b. if b then some v else lookup k m) (bytes_eq_refl k)

peers_remembered :
    (name : Bytes) (live : List LiveClient) (r : Reconciler)
    → peers_before name (peer_edges name live r) ≡ connected live
unfolding peer_edges
peers_remembered name live r = ap or_nobody (lookup-put_same name (connected live) _)

-- How many events are in the store.
abbrev count_events : Reconciler → ℕ
count_events r = length r.store.events

count_if :
    (b : Bool) (e : Event) (r : Reconciler)
    → count_events (if b then r else add_event e r) ≡ (if b then 0 else 1) + count_events r
count_if true e r = omega arith
count_if false e r = omega arith

-- Names that are missing add events.
emit_missing_grows :
    (event : Bytes → Event) (others cns : List Bytes) (r : Reconciler)
    → count_events r ≤ count_events (emit_missing event others cns r)
unfolding emit_missing
emit_missing_grows event others [] r = omega arith
emit_missing_grows event others (cn ∷ cns) r =
    let next = if member cn others then r else add_event (event cn) r in
    let here = count_if (member cn others) (event cn) r in
    let more = emit_missing_grows event others cns next in omega (arith, here, more)

-- No event is added only when no name is missing.
emit_missing_still :
    (event : Bytes → Event) (others cns : List Bytes) (r : Reconciler)
    → count_events (emit_missing event others cns r) ≤ count_events r
    → AreIn others cns
unfolding emit_missing
emit_missing_still event others [] r h = tt
emit_missing_still event others (cn ∷ cns) r h =
    let next = if member cn others then r else add_event (event cn) r in
    let here = count_if (member cn others) (event cn) r in
    let more = emit_missing_grows event others cns next in
    (
      elim (Bool-cases (member cn others)) [
        | inl e ↦ e
        | inr e ↦ absurd (
            let one = here ∙ ap (λ b. (if b then 0 else 1) + count_events r) e in
            omega (arith, one, more, h))
      ],
      emit_missing_still event others cns next (omega (arith, here, h)),
    )

-- A name of the one list is in the other.
member_in :
    (others xs : List Bytes) (cn : Bytes)
    → AreIn others xs
    → member cn xs ≡ true
    → member cn others ≡ true
unfolding member
member_in others [] cn h k = absurd (cc k)
member_in others (x ∷ xs) cn h k = elim (Bool-cases (bytes_eq x cn)) [
  | inl e ↦ subst (λ n. member n others ≡ true) (bytes_eq→eq x cn e) h.0
  | inr e ↦ member_in others xs cn h.1 (ground (arith, e, k))
]

same_bool : (a b : Bool) → (a ≡ true → b ≡ true) → (b ≡ true → a ≡ true) → a ≡ b
same_bool true b h k = sym (h refl)
same_bool false true h k = k refl
same_bool false false h k = refl

quiet_with :
    (name : Bytes) (after : List LiveClient) (r : Reconciler)
    → AreIn (peers_before name r) (connected after)
    → AreIn (connected after) (peers_before name r)
    → (peer_edges name after r).store.events ≡ r.store.events
unfolding peer_edges
quiet_with name after r h k =
    let now = connected after in
    let before = peers_before name r in
    ap (λ (x : Reconciler). x.store.events)
      (emit_missing_none (disconnect_event name) now before
          (emit_missing (connect_event name) before now r) k
        ∙ emit_missing_none (connect_event name) before now r h)

peer_edges_quiet :
    (name : Bytes) (live after : List LiveClient) (r : Reconciler)
    → SameNames live after
    → (peer_edges name after (peer_edges name live r)).store.events
      ≡ (peer_edges name live r).store.events
peer_edges_quiet name live after r same =
    let s = peer_edges name live r in
    let seen = sym (peers_remembered name live r) in
    quiet_with name after s
      (subst (λ b. AreIn b (connected after)) seen
        (members_of (connected after) (connected live) (λ cn h. same cn ∙ h)))
      (subst (AreIn (connected after)) seen
        (members_of (connected live) (connected after) (λ cn h. sym (same cn) ∙ h)))

peer_edges_loud :
    (name : Bytes) (live after : List LiveClient) (r : Reconciler)
    → (peer_edges name after (peer_edges name live r)).store.events
      ≡ (peer_edges name live r).store.events
    → SameNames live after
unfolding peer_edges
peer_edges_loud name live after r h cn =
    let s = peer_edges name live r in
    let now = connected after in
    let before = peers_before name s in
    let joined = emit_missing (connect_event name) before now s in
    let grows = emit_missing_grows (connect_event name) before now s in
    let more = emit_missing_grows (disconnect_event name) now before joined in
    let same : count_events (emit_missing (disconnect_event name) now before joined)
        ≡ count_events s =
      ap (λ es. length es) h in
    let seen = peers_remembered name live r in
    let known =
      subst (λ b. AreIn b now) seen
        (emit_missing_still (connect_event name) before now s (omega (arith, same, more))) in
    let left =
      subst (AreIn now) seen (
        emit_missing_still (disconnect_event name) now before joined
          (omega (arith, same, grows))) in
    same_bool (member cn (connected live)) (member cn now) (member_in now (connected live) cn left)
      (member_in (connected live) now cn known)

-- Of two runs in a row of the loops over the connections of an instance, the second one records neither a
-- connect nor a disconnect event exactly when the same clients are connected in both, in whatever order and
-- however often the management interface lists them.
pub peer_edges-quiet_iff :
    (name : Bytes) (live after : List LiveClient) (r : Reconciler)
    → ((peer_edges name after (peer_edges name live r)).store.events
        ≡ (peer_edges name live r).store.events)
      ↔ SameNames live after
peer_edges-quiet_iff name live after r =
    (peer_edges_loud name live after r, peer_edges_quiet name live after r)

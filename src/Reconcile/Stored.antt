-- ===== src/Reconcile/Stored.antt =====
-- What the loops over the clients write to the rows of the store (internal/reconcile/reconciler.go).
use openvpnd.Base.{
  ℕ, ◌≡◌, refl, sym, ap, ◌∙◌, inl, inr, Bool, true, false, ◌&&◌, ◌||◌, Option, none, some, List, [],
  ◌∷◌, map, ◌==◌, Bool-cases, if_lem, if◌then◌else◌,
}
use openvpnd.Base.Int.{ℤ}
use openvpnd.Base.Text.{Bytes, bytes_eq, bytes_eq_refl}
use openvpnd.Base.Assoc.{lookup, lookup-put}
use openvpnd.Models.{Client}
use openvpnd.Policy.{Reason, should_auto_suspend}
use openvpnd.Backend.{LiveClient}
use openvpnd.Reconcile.{
  Answers, Call, Reconciler, rows, or_no_rows, update_row, update_client, call,
}
use openvpnd.Reconcile.Suspend.{
  suspend_for, suspended_client, mark, suspend_client, suspend_clients,
}
use openvpnd.Reconcile.Sampling.{
  is_some, Counters, counted, record_client, remember_client, client_counters, sample_client,
}

rows_updated :
    (name : Bytes) (id : ℕ) (f : Client → Client) (r : Reconciler)
    → rows (update_client name id f r) name ≡ update_row id f (rows r name)
rows_updated name id f r =
    let new = update_row id f (rows r name) in
    ap or_no_rows (lookup-put name name new r.store.clients)
    ∙ ap (λ b. or_no_rows (if b then some new else lookup name r.store.clients))
        (bytes_eq_refl name)

rows_other :
    (name other : Bytes) (id : ℕ) (f : Client → Client) (r : Reconciler)
    → bytes_eq name other ≡ false
    → rows (update_client name id f r) other ≡ rows r other
rows_other name other id f r h =
    let new = update_row id f (rows r name) in
    ap or_no_rows (lookup-put name other new r.store.clients)
    ∙ ap (λ b. or_no_rows (if b then some new else lookup other r.store.clients)) h

update_row-map :
    (id : ℕ) (f : Client → Client) (cs : List Client)
    → update_row id f cs ≡ map (λ (c : Client). if c.id == id then f c else c) cs
unfolding update_row
update_row-map id f [] = refl
update_row-map id f (c ∷ cs) =
    ap (λ rest. (if c.id == id then f c else c) ∷ rest) (update_row-map id f cs)

map_ext :
    (f g : Client → Client) → ((c : Client) → f c ≡ g c) → (cs : List Client) → map f cs ≡ map g cs
map_ext f g h [] = refl
map_ext f g h (c ∷ cs) = ap (λ d. d ∷ map f cs) (h c) ∙ ap (λ ds. g c ∷ ds) (map_ext f g h cs)

map-map : (f g : Client → Client) (cs : List Client) → map f (map g cs) ≡ map (λ c. f (g c)) cs
map-map f g [] = refl
map-map f g (c ∷ cs) = ap (λ ds. f (g c) ∷ ds) (map-map f g cs)

map_id : (cs : List Client) → map (λ c. c) cs ≡ cs
map_id [] = refl
map_id (c ∷ cs) = ap (λ ds. c ∷ ds) (map_id cs)

if-mark : (b : Bool) (c : Client) → (if b then suspended_client c else c) ≡ mark b c
if-mark true c = refl
if-mark false c = refl

-- The row after a client's turn: suspended when it is the client's and there is a reason.
abbrev turn : Client → Option Reason → Client → Client
turn c o row = mark (is_some o && (row.id == c.id)) row

pub suspend_for-rows :
    (answers : Answers) (name : Bytes) (c : Client) (o : Option Reason) (r : Reconciler)
    → answers.can_suspend c.id ≡ true
    → rows ((suspend_for answers name c o r).1) name ≡ map (turn c o) (rows r name)
suspend_for-rows answers name c none r h = sym (map_id (rows r name))
suspend_for-rows answers name c (some reason) r h = rw h (
    rows_updated name c.id suspended_client r
    ∙ update_row-map c.id suspended_client (rows r name)
    ∙ map_ext _ (turn c (some reason)) (λ row. if-mark (row.id == c.id) row) (rows r name))

suspend_for-other :
    (answers : Answers) (name other : Bytes) (c : Client) (o : Option Reason) (r : Reconciler)
    → bytes_eq name other ≡ false
    → rows ((suspend_for answers name c o r).1) other ≡ rows r other
suspend_for-other answers name other c none r h = refl
suspend_for-other answers name other c (some reason) r h =
    if_lem (λ (x : Bool × Reconciler). rows (x.1) other ≡ rows r other) (answers.can_suspend c.id)
      (λ _. rows_other name other c.id suspended_client r h) (λ _. refl)

-- Whether the policy names a client of the list with the id.
abbrev pub names : ℤ → List Client → ℕ → Bool
names now [] id = false
names now (c ∷ cs) id = (is_some (should_auto_suspend c now) && (id == c.id)) || names now cs id

-- The row after all turns.
abbrev pub turned : ℤ → List Client → Client → Client
turned now cs row = mark (names now cs row.id) row

mark_twice :
    (f : ℕ → Bool) (b : Bool) (row : Client)
    → mark (f (mark b row).id) (mark b row) ≡ mark (b || f row.id) row
mark_twice f false row = refl
mark_twice f true row = elim (Bool-cases (f row.id)) [ inl e ↦ rw e refl | inr e ↦ rw e refl ]

-- After the loop a row of the instance is suspended when it was or the policy names a client of its id, when
-- the store accepts suspensions.
pub suspend_clients-rows :
    (answers : Answers) (name : Bytes) (cs : List Client) (r : Reconciler)
    → ((id : ℕ) → answers.can_suspend id ≡ true)
    → rows ((suspend_clients answers name cs r).1) name ≡ map (turned answers.now cs) (rows r name)
unfolding suspend_clients suspend_client
suspend_clients-rows answers name [] r h = sym (map_id (rows r name))
suspend_clients-rows answers name (c ∷ cs) r h =
    let o = should_auto_suspend c answers.now in
    suspend_clients-rows answers name cs ((suspend_for answers name c o r).1) h
    ∙ ap (map (turned answers.now cs)) (suspend_for-rows answers name c o r (h c.id))
    ∙ map-map (turned answers.now cs) (turn c o) (rows r name)
    ∙ map_ext _ (turned answers.now (c ∷ cs))
        (λ row. mark_twice (names answers.now cs) (is_some o && (row.id == c.id)) row) (rows r name)

pub suspend_clients-other :
    (answers : Answers) (name other : Bytes) (cs : List Client) (r : Reconciler)
    → bytes_eq name other ≡ false
    → rows ((suspend_clients answers name cs r).1) other ≡ rows r other
unfolding suspend_clients suspend_client
suspend_clients-other answers name other [] r h = refl
suspend_clients-other answers name other (c ∷ cs) r h =
    let o = should_auto_suspend c answers.now in
    suspend_clients-other answers name other cs ((suspend_for answers name c o r).1) h
    ∙ suspend_for-other answers name other c o r h

-- The row after a client was sampled: its counters, and its suspension.
abbrev pub sampled : Counters → Option Reason → ℕ → Client → Client
sampled n o id row = if row.id == id then counted n (mark (is_some o) row) else row

killed_rows :
    (name : Bytes) (b : Bool) (k : Call) (r : Reconciler)
    → rows (if b then call k r else r) name ≡ rows r name
killed_rows name true k r = refl
killed_rows name false k r = refl

record_client-rows :
    (answers : Answers) (name : Bytes) (d : Client) (found : Option LiveClient) (n : Counters)
    (r : Reconciler)
    → rows (record_client answers name d found n r) name ≡ update_row d.id (counted n) (rows r name)
record_client-rows answers name d none n r = rows_updated name d.id (counted n) r
record_client-rows answers name d (some l) n r =
    let b = true && d.suspended && answers.can_kill name in
    let k = Call.kill name d.common_name in
    rows_updated name d.id (counted n) (if b then call k r else r)
    ∙ ap (update_row d.id (counted n)) (killed_rows name b k r)

remember_client-rows :
    (answers : Answers) (name : Bytes) (c : Client) (found : Option LiveClient) (r : Reconciler)
    → rows (remember_client answers name c found r) name ≡ rows r name
remember_client-rows answers name c none r = refl
remember_client-rows answers name c (some l) r = refl

sampled_row :
    (n : Counters) (o : Option Reason) (c row : Client)
    → (if (turn c o row).id == c.id then counted n (turn c o row) else turn c o row)
      ≡ sampled n o c.id row
sampled_row n none c row = refl
sampled_row n (some reason) c row = elim (Bool-cases (row.id == c.id)) [
  | inl e ↦ rw (e, e) refl
  | inr e ↦ rw (e, e) refl
]

mark_id : (b : Bool) (c : Client) → (mark b c).id ≡ c.id
mark_id true c = refl
mark_id false c = refl

-- After the turn of a client the row of its id has its counters and is suspended when it was or the policy
-- names the client with these counters, when the store accepts that; the other rows are as they were.
pub sample_client-rows :
    (answers : Answers) (name : Bytes) (found : Option LiveClient) (c : Client) (r : Reconciler)
    → answers.can_suspend c.id ≡ true
    → rows ((sample_client answers name found c r).1) name
      ≡ map
          (sampled
            (client_counters answers name c found r)
            (should_auto_suspend (counted (client_counters answers name c found r) c) answers.now)
            c.id)
          (rows r name)
unfolding sample_client suspend_client
sample_client-rows answers name found c r h =
    let n = client_counters answers name c found r in
    let o = should_auto_suspend (counted n c) answers.now in
    let r1 = remember_client answers name c found r in
    let b = (suspend_for answers name (counted n c) o r1).0 in
    let r2 = (suspend_for answers name (counted n c) o r1).1 in
    let before =
      suspend_for-rows answers name (counted n c) o r1 h
      ∙ ap (map (turn c o)) (remember_client-rows answers name c found r) in
    record_client-rows answers name (mark b c) found n r2
    ∙ ap (λ id. update_row id (counted n) (rows r2 name)) (mark_id b c)
    ∙ ap (update_row c.id (counted n)) before
    ∙ update_row-map c.id (counted n) (map (turn c o) (rows r name))
    ∙ map-map _ (turn c o) (rows r name)
    ∙ map_ext _ (sampled n o c.id) (sampled_row n o c) (rows r name)

-- ===== src/Bandwidth/Moves/Wanted.antt =====
-- Only wanted clients are set up: `Sync` is a chain of moves that record desired clients.
use openvpnd.Base.{
  ◌≡◌, refl, true, Option, none, some, List, [], ◌∷◌, not, ◌&&◌, ◌||◌, Holds, Holds-some, if_lem,
  if◌then◌else◌, ltb, length,
}
use openvpnd.Base.Text.{Bytes, bytes_eq, bytes_eq_iff, trim_space}
use openvpnd.Base.Assoc.{Assoc, lookup, keys, lookup-put}
use openvpnd.Base.Sort.{sort_strings}
use openvpnd.Bandwidth.Plan.{ClientLimit, needs_shaping, is_empty}
use openvpnd.Bandwidth.State.{Runner, Enforcer, clients_of, is_silent}
use openvpnd.Bandwidth.Enforcer.{
  want, want_all, desired, present, stale, ensure_instance, remove_each, apply_wanted, apply_each,
  sync,
}
use openvpnd.Bandwidth.Moves.{Moves, ◌then◌}
use openvpnd.Bandwidth.Moves.Classes.{IsWellFormed, Moves-IsWellFormed}
use openvpnd.Bandwidth.Moves.Operations.{ensure_instance-Moves, remove_each-Moves, apply-Moves}

-- Every limit is kept under the client's name.
abbrev pub IsNamed : Assoc ClientLimit → Type 0
IsNamed m = (cn : Bytes) → Holds (λ (c : ClientLimit). c.common_name ≡ cn) (lookup cn m)

want-IsNamed : (c : ClientLimit) (m : Assoc ClientLimit) → IsNamed m → IsNamed (want c m)
unfolding want
want-IsNamed c m h =
    let cn = trim_space c.common_name in
    if_lem IsNamed (is_empty cn || not (needs_shaping c.static_ip c.rx_bps c.tx_bps)) (λ _. h)
      λ _ k. rw lookup-put (
        if_lem (Holds (λ (d : ClientLimit). d.common_name ≡ k)) (bytes_eq cn k)
          (λ e. (bytes_eq_iff cn k).0 e) (λ _. h k))

want_all-IsNamed :
    (cs : List ClientLimit) (m : Assoc ClientLimit) → IsNamed m → IsNamed (want_all cs m)
unfolding want_all
want_all-IsNamed [] m h = h
want_all-IsNamed (c ∷ cs) m h = want_all-IsNamed cs (want c m) (want-IsNamed c m h)

pub desired-IsNamed : (cs : List ClientLimit) → IsNamed (desired cs)
unfolding desired
desired-IsNamed cs = want_all-IsNamed cs [] λ cn. unfold lookup in tt

abbrev pub IsIn : Assoc ClientLimit → Bytes → Type 0
IsIn m cn = present (lookup cn m) ≡ true

module _ (runner : Runner) (name device : Bytes) (m : Assoc ClientLimit) (named : IsNamed m) where
  apply_wanted-Moves :
      (cn : Bytes) (e : Enforcer) (o : Option ClientLimit)
      → lookup cn m ≡ o
      → IsWellFormed e
      → Moves name (IsIn m) e (apply_wanted runner name device o e)
  unfolding apply_wanted
  apply_wanted-Moves cn e none h w = Moves.here
  apply_wanted-Moves cn e (some c) h w =
      let same = Holds-some _ (lookup cn m) (named cn) h in
      apply-Moves runner name (IsIn m) device c e (rw (same, h) refl) w

  pub apply_each-Moves :
      (cns : List Bytes) (e : Enforcer)
      → IsWellFormed e
      → Moves name (IsIn m) e (apply_each runner name device m cns e)
  unfolding apply_each
  apply_each-Moves [] e w = Moves.here
  apply_each-Moves (cn ∷ cns) e w =
      let first = apply_wanted-Moves cn e (lookup cn m) refl w in
      first then apply_each-Moves cns _ (Moves-IsWellFormed first w)

-- `Sync` records desired clients only.
pub sync-Moves :
    (runner : Runner) (name device : Bytes) (clients : List ClientLimit) (e : Enforcer)
    → IsWellFormed e
    → Moves name (IsIn (desired clients)) e (sync runner name device clients e)
unfolding sync
sync-Moves runner name device clients e w =
    let m = desired clients in
    let P : Enforcer → Type 0 = λ f. Moves name (IsIn m) e f in
    let cns = sort_strings (stale m (keys (clients_of (ensure_instance name e) name))) in
    let removed =
      ensure_instance-Moves runner name (IsIn m) e
      then remove_each-Moves runner name (IsIn m) cns (ensure_instance name e) in
    if_lem P (is_silent e.mode) (λ _. Moves.here)
      λ _.
        if_lem P (is_empty (trim_space device) && ltb 0 (length m)) (λ _. removed)
          λ _.
            removed
            then apply_each-Moves runner name (trim_space device) m (desired-IsNamed clients)
                (sort_strings (keys m)) (remove_each runner name cns (ensure_instance name e))
                (Moves-IsWellFormed removed w)

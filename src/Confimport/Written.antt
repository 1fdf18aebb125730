-- ===== src/Confimport/Written.antt =====
-- When the inline blocks are written (internal/confimport/inline.go), and what is left of them.
use mathlib.Core.Path.{subst}
use openvpnd.Base.{
  ◌≡◌, refl, sym, ap, ◌∙◌, inl, inr, Bool, true, false, not, ◌&&◌, ◌||◌, Option, none, some, List,
  [], ◌∷◌, All, Option-cases, Bool-cases, if◌then◌else◌,
}
use openvpnd.Base.Text.{Bytes, bytes_eq, trim_space}
use openvpnd.Base.Paths.{join_path}
use openvpnd.Base.Assoc.{Assoc, lookup}
use openvpnd.Confimport.{Result}
use openvpnd.Confimport.Materialize.{
  Files, Written, Target, clear_inline_warnings, has_inline, targets, write_targets, materialize,
}

-- The block of a target, if there is one, can be written.
abbrev can_write : Files → Bytes → Target → Option Bytes → Bool
can_write files dir t none = true
can_write files dir t (some body) = files.write_file (join_path dir t.file) body

abbrev pub all_written : Files → Bytes → Assoc Bytes → List Target → Bool
all_written files dir blocks [] = true
all_written files dir blocks (t ∷ ts) =
    can_write files dir t (lookup t.tag blocks) && all_written files dir blocks ts

-- Storing a path leaves the blocks, and so does a failure.
abbrev KeepsInline : Target → Type 0
KeepsInline t =
    ((path : Bytes) (r : Result) → (t.store path r).inline ≡ r.inline)
    × ((r : Result) → (t.failed r).inline ≡ r.inline)

targets-KeepInline : (role : Bytes) → All KeepsInline (targets role)
targets-KeepInline role = (
  ((λ p r. refl), (λ r. refl)),
  (
    ((λ p r. refl), (λ r. refl)),
    (
      ((λ p r. refl), (λ r. refl)),
      (
        ((λ p r. refl), (λ r. refl)),
        (
          ((λ p r. refl), (λ r. refl)),
          (
            ((λ p r. refl), (λ r. refl)),
            (
              ((λ p r. refl), (λ r. refl)),
              (((λ p r. refl), (λ r. refl)), (((λ p r. refl), (λ r. refl)), tt)),
            ),
          ),
        ),
      ),
    ),
  ),
)

-- The paths of the blocks, stored in turn.
unfoldable pub stored : Bytes → Target → Option Bytes → Result → Result
stored dir t none r = r
stored dir t (some body) r = t.store (join_path dir t.file) r

abbrev pub store_all : Bytes → Assoc Bytes → List Target → Result → Result
store_all dir blocks [] r = r
store_all dir blocks (t ∷ ts) r = store_all dir blocks ts (stored dir t (lookup t.tag blocks) r)

-- A run that has ended in success has left what is wanted, one that has failed has left all blocks.
abbrev pub Leaves : Assoc Bytes → Result → Written → Type 0
Leaves blocks wanted (true, after) = after ≡ wanted
Leaves blocks wanted (false, after) = after.inline ≡ blocks

abbrev pub cleared : Result → Result
cleared r = clear_inline_warnings (record r { inline = [] })

module _ (files : Files) (dir : Bytes) where
  write_targets-none :
      (t : Target) (ts : List Target) (r : Result)
      → lookup t.tag r.inline ≡ none
      → write_targets files dir (t ∷ ts) r ≡ write_targets files dir ts r
  unfolding write_targets
  write_targets-none t ts r e = rw (e, write_targets) refl

  write_targets-true :
      (t : Target) (ts : List Target) (r : Result) (body : Bytes)
      → lookup t.tag r.inline ≡ some body
      → files.write_file (join_path dir t.file) body ≡ true
      → write_targets files dir (t ∷ ts) r
        ≡ write_targets files dir ts (t.store (join_path dir t.file) r)
  unfolding write_targets
  write_targets-true t ts r body e f = rw (e, f, write_targets) refl

  write_targets-false :
      (t : Target) (ts : List Target) (r : Result) (body : Bytes)
      → lookup t.tag r.inline ≡ some body
      → files.write_file (join_path dir t.file) body ≡ false
      → write_targets files dir (t ∷ ts) r ≡ (false, t.failed r)
  unfolding write_targets
  write_targets-false t ts r body e f = rw (e, f, write_targets) refl

  -- Success means that every block could be written.
  abbrev Ends : List Target → Assoc Bytes → Result → Written → Type 0
  Ends ts blocks r w =
      (w.0 ≡ all_written files dir blocks ts)
      × Leaves blocks (cleared (store_all dir blocks ts r)) w

  write_targets-Ends :
      (ts : List Target) (r : Result)
      → All KeepsInline ts
      → Ends ts r.inline r (write_targets files dir ts r)
  unfolding write_targets stored
  write_targets-Ends [] r h = (refl, refl)
  write_targets-Ends (t ∷ ts) r h =
      let path = join_path dir t.file in
      let block = lookup t.tag r.inline in
      let writes =
        λ (o : Option Bytes). can_write files dir t o && all_written files dir r.inline ts in
      let Left = λ (w : Written) (o : Option Bytes).
        Leaves r.inline (cleared (store_all dir r.inline ts (stored dir t o r))) w in
      elim (Option-cases block) [
        | inl e ↦
            let rest = write_targets-Ends ts r h.1 in
            rw (write_targets-none t ts r e) (
              rest.0 ∙ ap writes (sym e),
              subst (Left (write_targets files dir ts r)) (sym e) rest.1,
            )
        | inr (body, e) ↦ elim (Bool-cases (files.write_file path body)) [
          | inl f ↦
              let after = write_targets files dir ts (t.store path r) in
              let rest =
                subst (λ m. Ends ts m (t.store path r) after) (h.0.0 path r)
                  (write_targets-Ends ts (t.store path r) h.1) in
              rw (write_targets-true t ts r body e f) (
                rest.0
                    ∙ ap (λ b. b && all_written files dir r.inline ts) (sym f)
                    ∙ ap writes (sym e),
                subst (Left after) (sym e) rest.1,
              )
          | inr f ↦ rw (write_targets-false t ts r body e f) (
            ap (λ b. b && all_written files dir r.inline ts) (sym f) ∙ ap writes (sym e),
            h.0.1 r,
          )
        ]
      ]

-- The early returns of `Materialize`.
pub guarded :
    (some_inline blank made all : Bool) (r wanted : Result) (w : Written)
    → (w.0 ≡ all) × Leaves r.inline wanted w
    → (((if not some_inline then (true, r) else if blank || not made then (false, r) else w).0)
        ≡ (not some_inline || (not blank && made && all)))
      × Leaves r.inline
          (if some_inline then wanted else r)
          (if not some_inline then (true, r) else if blank || not made then (false, r) else w)
guarded false blank made all r wanted w k = (refl, refl)
guarded true true made all r wanted w k = (refl, refl)
guarded true false false all r wanted w k = (refl, refl)
guarded true false true all r wanted w k = k

-- The run over all targets, with the early returns.
pub materialize-Ends :
    (files : Files) (dest : Bytes) (r : Result)
    → ((materialize files dest r).0 ≡ (
        not (has_inline r)
        || (not (bytes_eq (trim_space dest) [])
            && files.mkdir_all (trim_space dest)
            && all_written files (trim_space dest) r.inline (targets r.role))))
      × Leaves r.inline
          (if has_inline r
            then cleared (store_all (trim_space dest) r.inline (targets r.role) r)
            else r)
          (materialize files dest r)
unfolding materialize
materialize-Ends files dest r =
    let dir = trim_space dest in
    guarded (has_inline r) (bytes_eq dir []) (files.mkdir_all dir)
      (all_written files dir r.inline (targets r.role)) r
      (cleared (store_all dir r.inline (targets r.role) r))
      (write_targets files dir (targets r.role) r)
      (write_targets-Ends files dir (targets r.role) r (targets-KeepInline r.role))

-- ===== src/Snmp/Pdu/Fuel.antt =====
-- The loop over the bindings (internal/snmp/pdu.go) ends by itself: its fuel never decides.
use openvpnd.Base.{
  ℕ, zero, suc, ◌≤◌, ◌<◌, ◌≡◌, ◌≢◌, refl, sym, ap, ◌∙◌, none, some, [], ◌∷◌, arith, inl, inr,
  length, Option-cases, Holds, Holds-any, Holds-bind, Holds-some, ◌>>=◌, ◌==◌,
}
use openvpnd.Base.Text.{Bytes}
use openvpnd.Snmp.Tag
use openvpnd.Snmp.Ber.{read_tlv}
use openvpnd.Snmp.Ber.Shrinks.{read_tlv_shrinks}
use openvpnd.Snmp.Pdu.{
  VarBind, Reading, goes_on, refused, finished, prepend, expect, read_binding, read_bindings,
  decode_bindings, decode_var_bind, result,
}

-- A round leaves fewer bytes.
abbrev LeavesFewer : Bytes → VarBind × Bytes → Type 0
LeavesFewer s r = length r.1 < length s

read_binding-LeavesFewer : (s : Bytes) → Holds (LeavesFewer s) (read_binding s)
unfolding read_binding
read_binding-LeavesFewer s = elim (Option-cases (read_tlv s)) [
  | inl e ↦ rw e tt
  | inr ((t, c, rest), e) ↦ rw e (
      Holds-bind (λ _. Unit {0}) (LeavesFewer s) (expect (t == Tag.sequence)) _ (Holds-any _)
        λ _ _.
          Holds-bind (λ _. Unit {0}) (LeavesFewer s) (decode_var_bind c) _ (Holds-any _)
            λ vb _. omega (arith, read_tlv_shrinks s e))
]

read_bindings-none :
    (f b : ℕ) (s : Bytes) → read_binding (b ∷ s) ≡ none → read_bindings (suc f) (b ∷ s) ≡ refused
unfolding read_bindings
read_bindings-none f b s e = rw (e, read_bindings) refl

read_bindings-some :
    (f b : ℕ) (s : Bytes) (vb : VarBind) (rest : Bytes)
    → read_binding (b ∷ s) ≡ some (vb, rest)
    → read_bindings (suc f) (b ∷ s) ≡ prepend vb (read_bindings f rest)
unfolding read_bindings
read_bindings-some f b s vb rest e = rw (e, read_bindings) refl

prepend_ends : (vb : VarBind) (r : Reading) → r ≢ goes_on → prepend vb r ≢ goes_on
prepend_ends vb goes_on h = h
prepend_ends vb refused h = λ e. cc e
prepend_ends vb (finished vbs) h = λ e. cc e

-- The loop has been left, and it is left in the same way with any number of rounds that is as large.
abbrev pub HasEnded : Bytes → ℕ → Type 0
HasEnded s f =
    (read_bindings f s ≢ goes_on) × ((g : ℕ) → length s ≤ g → read_bindings g s ≡ read_bindings f s)

-- With a round for every byte the loop over the bindings is left by an error or with the list of bindings,
-- never because the rounds are used up, and further rounds change nothing.
pub read_bindings-HasEnded : (f : ℕ) (s : Bytes) → length s ≤ f → HasEnded s f
unfolding read_bindings
read_bindings-HasEnded f [] h = (λ e. cc e, λ g k. refl)
read_bindings-HasEnded zero (b ∷ s) h = absurd (omega arith)
read_bindings-HasEnded (suc f) (b ∷ s) h = elim (Option-cases (read_binding (b ∷ s))) [
  | inl e ↦ (
    (λ g. absurd (refused_ends (sym (read_bindings-none f b s e) ∙ g))),
    (λ g k. refused_again g k e ∙ sym (read_bindings-none f b s e)),
  )
  | inr ((vb, rest), e) ↦
      let fewer =
        Holds-some (LeavesFewer (b ∷ s)) (read_binding (b ∷ s)) (read_binding-LeavesFewer (b ∷ s))
          e in
      let more = read_bindings-HasEnded f rest (omega (arith, fewer, h)) in
      (
        (λ g.
            prepend_ends vb (read_bindings f rest) more.0
              (sym (read_bindings-some f b s vb rest e) ∙ g)),
        (λ g k.
            finished_again g k vb rest e fewer more.1 ∙ sym (read_bindings-some f b s vb rest e)),
      )
]
  where
    refused_ends : refused ≢ goes_on
    refused_ends e = cc e

    refused_again :
        (g : ℕ)
        → length (b ∷ s) ≤ g
        → read_binding (b ∷ s) ≡ none
        → read_bindings g (b ∷ s) ≡ refused
    refused_again zero k e = absurd (omega (arith, k))
    refused_again (suc g) k e = read_bindings-none g b s e

    finished_again :
        (g : ℕ)
        → length (b ∷ s) ≤ g
        → (vb : VarBind) (rest : Bytes) → read_binding (b ∷ s) ≡ some (vb, rest)
        → length rest < length (b ∷ s)
        → ((k : ℕ) → length rest ≤ k → read_bindings k rest ≡ read_bindings f rest)
        → read_bindings g (b ∷ s) ≡ prepend vb (read_bindings f rest)
    finished_again zero k vb rest e fewer more = absurd (omega (arith, k))
    finished_again (suc g) k vb rest e fewer more =
        read_bindings-some g b s vb rest e ∙ ap (prepend vb) (more g (omega (arith, k, fewer)))

-- Any two numbers of rounds that are large enough give the same list or error.
pub decode_bindings_fuel :
    (f g : ℕ) (s : Bytes) → length s ≤ f → length s ≤ g → decode_bindings f s ≡ decode_bindings g s
unfolding decode_bindings
decode_bindings_fuel f g s h k = ap result ((read_bindings-HasEnded g s k).1 f h)

result-prepend :
    (vb : VarBind) (r : Reading) → result (prepend vb r) ≡ (result r >>= λ vbs. some (vb ∷ vbs))
result-prepend vb goes_on = refl
result-prepend vb refused = refl
result-prepend vb (finished vbs) = refl

-- One round, with errors as `none`.
pub decode_bindings_round :
    (f b : ℕ) (s : Bytes)
    → decode_bindings (suc f) (b ∷ s)
      ≡ (read_binding (b ∷ s) >>= λ r. decode_bindings f r.1 >>= λ vbs. some (r.0 ∷ vbs))
unfolding decode_bindings
decode_bindings_round f b s = elim (Option-cases (read_binding (b ∷ s))) [
  | inl e ↦ ap result (read_bindings-none f b s e) ∙ rw e refl
  | inr ((vb, rest), e) ↦
      ap result (read_bindings-some f b s vb rest e)
      ∙ result-prepend vb (read_bindings f rest)
      ∙ rw e refl
]

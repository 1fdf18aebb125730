-- ===== src/Confimport/Fields.antt =====
-- The splitting of a line into its fields, and where its comment begins (internal/confimport/parse.go).
use openvpnd.Base.{
  ℕ, suc, ◌||◌, Option, none, some, List, [], ◌∷◌, ◌++◌, ◌==◌, if◌then◌else◌, ◌>>=◌,
}
use openvpnd.Base.Text.{Bytes}

-- The field read so far, when it is not empty, in front of the others.
abbrev pub flush : Bytes → List Bytes → List Bytes
flush [] fields = fields
flush (c ∷ b) fields = (c ∷ b) ∷ fields

-- `b` is the field read so far and `quote` the open quote.
unfoldable pub fields_from : Option ℕ → Bytes → Bytes → List Bytes
fields_from quote b [] = flush b []
fields_from (some q) b (c ∷ []) =
    let closed = fields_from none b [] in
    let more = fields_from (some q) (b ++ (c ∷ [])) [] in if c == q then closed else more
fields_from (some q) b (c ∷ d ∷ s) =
    let closed = fields_from none b (d ∷ s) in
    let escaped = fields_from (some q) (b ++ (d ∷ [])) s in
    let more = fields_from (some q) (b ++ (c ∷ [])) (d ∷ s) in
    if c == q then closed else if c == b'\\' then escaped else more
fields_from none b (c ∷ s) =
    let quoted = fields_from (some c) b s in
    let next = fields_from none [] s in
    let more = fields_from none (b ++ (c ∷ [])) s in
    if (c == b'"') || (c == b'\'')
    then quoted
    else if (c == b' ') || (c == b'\t')
    then flush b next
    else more

-- `splitFields`.
unfoldable pub split_fields : Bytes → List Bytes
unfolding fields_from
split_fields line = fields_from none [] line

unfoldable pub unquoted_from : Option ℕ → ℕ → Bytes → Option ℕ
unquoted_from quote ch [] = none
unquoted_from (some q) ch (c ∷ s) =
    let out = unquoted_from none ch s in
    let within = unquoted_from (some q) ch s in
    (if c == q then out else within) >>= λ i. some (suc i)
unquoted_from none ch (c ∷ s) =
    let within = unquoted_from (some c) ch s in
    let out = unquoted_from none ch s in
    if (c == b'"') || (c == b'\'')
    then (within >>= λ i. some (suc i))
    else if c == ch
    then some 0
    else (out >>= λ i. some (suc i))

-- `indexUnquoted`, `none` for -1.
unfoldable pub index_unquoted : Bytes → ℕ → Option ℕ
unfolding unquoted_from
index_unquoted s ch = unquoted_from none ch s

-- ===== src/Confimport/Quoting.antt =====
-- The fields of a line that the program has written itself: `quoteArg` (internal/confgen/render.go) against
-- `splitFields` (internal/confimport/parse.go).
use openvpnd.Base.{
  ℕ, ◌≡◌, ◌≢◌, refl, ap, ◌∙◌, false, none, some, List, [], ◌∷◌, ◌++◌, append_assoc, append-nil, All,
  arith, if_lem, ◌==◌, ==_iff,
}
use openvpnd.Base.Text.{Bytes, codes}
use openvpnd.Base.Strings.{has_byte, replace_byte}
use openvpnd.Models.{Plugin}
use openvpnd.Confgen.{quote_arg, has_blank_or_quote}
use openvpnd.Confgen.Render.{plugin_line, quoted_args}
use openvpnd.Confimport.Fields.{flush, fields_from, split_fields}

-- A byte that neither ends a field nor opens a quote.
abbrev pub IsPlain : ℕ → Type 0
IsPlain c = (c ≢ b'"') × (c ≢ b'\'') × (c ≢ b' ') × (c ≢ b'\t')

abbrev pub IsUnescaped : ℕ → Type 0
IsUnescaped c = c ≢ b'\\'

-- An argument that can be written: not empty, and without a backslash.
abbrev pub IsArgument : Bytes → Type 0
IsArgument a = (a ≢ []) × All IsUnescaped a

flush_set : (b : Bytes) (fields : List Bytes) → b ≢ [] → flush b fields ≡ b ∷ fields
flush_set [] fields h = absurd (h refl)
flush_set (c ∷ b) fields h = refl

pub fields_from_plain :
    (p b rest : Bytes)
    → All IsPlain p
    → fields_from none b (p ++ rest) ≡ fields_from none (b ++ p) rest
unfolding fields_from
fields_from_plain [] b rest h = rw (append-nil b) refl
fields_from_plain (c ∷ p) b rest h =
    let more = fields_from_plain p (b ++ (c ∷ [])) rest h.1 in
    ground (arith, more, append_assoc b (c ∷ []) p)

closed : (b rest : Bytes) → fields_from (some b'"') b (b'"' ∷ rest) ≡ fields_from none b rest
unfolding fields_from
closed b [] = refl
closed b (d ∷ rest) = refl

within :
    (c : ℕ) (b rest : Bytes)
    → c ≢ b'"'
    → c ≢ b'\\'
    → fields_from (some b'"') b (c ∷ rest) ≡ fields_from (some b'"') (b ++ (c ∷ [])) rest
unfolding fields_from
within c b [] h k = ground arith
within c b (d ∷ rest) h k = ground arith

escaped :
    (d : ℕ) (b rest : Bytes)
    → fields_from (some b'"') b (b'\\' ∷ d ∷ rest) ≡ fields_from (some b'"') (b ++ (d ∷ [])) rest
unfolding fields_from
escaped d b rest = refl

abbrev escape : Bytes → Bytes
escape a = replace_byte b'"' (b'\\' ∷ b'"' ∷ []) a

fields_from_quoted :
    (a b rest : Bytes)
    → All IsUnescaped a
    → fields_from (some b'"') b (escape a ++ (b'"' ∷ rest)) ≡ fields_from none (b ++ a) rest
unfolding replace_byte
fields_from_quoted [] b rest h = rw (append-nil b) (closed b rest)
fields_from_quoted (c ∷ a) b rest h =
    let more =
      fields_from_quoted a (b ++ (c ∷ [])) rest h.1
      ∙ ap (λ f. fields_from none f rest) (append_assoc b (c ∷ []) a) in
    if_lem
      (λ r. fields_from (some b'"') b (r ++ (b'"' ∷ rest)) ≡ fields_from none (b ++ (c ∷ a)) rest)
      (c == b'"')
      (λ e.
        let c_is = (==_iff c b'"').0 e in
        let first = escaped b'"' b (escape a ++ (b'"' ∷ rest)) in cc)
      (λ e. within c b (escape a ++ (b'"' ∷ rest)) (ground arith) h.0 ∙ more)

no_blank-IsPlain : (s : Bytes) → has_blank_or_quote s ≡ false → All IsPlain s
unfolding has_byte
no_blank-IsPlain [] h = tt
no_blank-IsPlain (c ∷ s) h = ground (arith, no_blank-IsPlain s)

-- A written argument is read back, whatever field is open before it.
fields_from-quote_arg :
    (a rest : Bytes)
    → IsArgument a
    → fields_from none [] (quote_arg a ++ rest) ≡ fields_from none a rest
unfolding quote_arg replace_byte fields_from
fields_from-quote_arg [] rest h = absurd (h.0 refl)
fields_from-quote_arg (c ∷ s) rest h =
    if_lem (λ r. fields_from none [] (r ++ rest) ≡ fields_from none (c ∷ s) rest)
      (has_blank_or_quote (c ∷ s))
      (λ e.
        rw (append_assoc (escape (c ∷ s)) (b'"' ∷ []) rest)
          (fields_from_quoted (c ∷ s) [] rest h.1))
      (λ e. fields_from_plain (c ∷ s) [] rest (no_blank-IsPlain (c ∷ s) e))

fields_from-quoted_args :
    (args : List Bytes) (b : Bytes)
    → All IsArgument args
    → fields_from none b (quoted_args args) ≡ flush b args
unfolding fields_from quoted_args
fields_from-quoted_args [] b h = refl
fields_from-quoted_args (a ∷ more) b h = ap (flush b) (
    fields_from-quote_arg a (quoted_args more) h.0
    ∙ fields_from-quoted_args more a h.1
    ∙ flush_set a more h.0.0)

-- A plugin's line is split into the word `plugin`, the path and the arguments, when the path is not empty
-- and has neither spaces, tabs nor quotes, and no argument is empty or has a backslash.
pub split_fields-plugin_line :
    (p : Plugin)
    → p.path ≢ []
    → All IsPlain p.path
    → All IsArgument p.args
    → split_fields (plugin_line p) ≡ codes "plugin" ∷ p.path ∷ p.args
unfolding split_fields plugin_line
split_fields-plugin_line p h k l =
    ap (λ r. codes "plugin" ∷ r)
      (fields_from_plain p.path [] (quoted_args p.args) k
        ∙ fields_from-quoted_args p.args p.path l
        ∙ flush_set p.path p.args h)

-- ===== src/Snmp/Oid/Text.antt =====
-- Printing an OID and parsing it again (`ParseOID` and `OID.String`).
use openvpnd.Base.{
  ℕ, ◌≤◌, ◌≡◌, ◌≢◌, refl, ◌∙◌, ap, some, List, [], ◌∷◌, ◌++◌, append-nil, arith, All, All-append,
}
use openvpnd.Base.Text.{Bytes, IsVisible, trim_space_visible}
use openvpnd.Base.Decimal.{
  format_uint, parse_uint, IsDigit, All-format_uint, format_uint-ne-nil, parse_uint-format_uint,
}
use openvpnd.Base.Split.{split, Lacks, split_last, split-append}
use openvpnd.Snmp.Oid.{
  Oid, max_uint32, parse_parts, trim_dot, parse_trimmed, parse_oid, dotted, oid_string,
}

abbrev pub IsOid32 : Oid → Type 0
IsOid32 = All (λ n. n ≤ max_uint32)

digits-Lacks : (s : Bytes) → All IsDigit s → Lacks b'.' s
digits-Lacks [] h = tt
digits-Lacks (c ∷ s) h = (omega arith, digits-Lacks s h.1)

digits-IsVisible : (s : Bytes) → All IsDigit s → All IsVisible s
digits-IsVisible [] h = tt
digits-IsVisible (c ∷ s) h = ((omega arith, omega arith), digits-IsVisible s h.1)

dotted-IsVisible : (o : Oid) → All IsVisible (dotted o)
unfolding dotted
dotted-IsVisible [] = tt
dotted-IsVisible (n ∷ o) = (
  (omega arith, omega arith),
  All-append IsVisible (format_uint n) (dotted o)
      (digits-IsVisible (format_uint n) (All-format_uint n)) (dotted-IsVisible o),
)

oid_string-IsVisible : (o : Oid) → All IsVisible (oid_string o)
unfolding oid_string
oid_string-IsVisible [] = tt
oid_string-IsVisible (n ∷ o) =
    All-append IsVisible (format_uint n) (dotted o)
      (digits-IsVisible (format_uint n) (All-format_uint n)) (dotted-IsVisible o)

-- The parts of a printed OID are the prints of its items.
parse_parts-number :
    (n : ℕ) (ps : List Bytes)
    → n ≤ max_uint32
    → parse_parts (format_uint n ∷ ps) ≡ n ∷ parse_parts ps
parse_parts-number n ps h =
    go (format_uint n) (format_uint-ne-nil n) (parse_uint-format_uint max_uint32 n h)
  where
    go :
        (s : Bytes)
        → s ≢ []
        → parse_uint max_uint32 s ≡ some n
        → parse_parts (s ∷ ps) ≡ n ∷ parse_parts ps
    go [] ne e = absurd (ne refl)
    go (c ∷ s) ne e = unfold parse_parts in rw (e, parse_parts)

parse_parts-dotted :
    (n : ℕ) (o : Oid)
    → n ≤ max_uint32
    → IsOid32 o
    → parse_parts (split b'.' (format_uint n ++ dotted o)) ≡ n ∷ o
unfolding dotted
parse_parts-dotted n [] h ho =
    rw (append-nil (format_uint n), split_last b'.' _ (digits-Lacks _ (All-format_uint n)))
      (parse_parts-number n [] h ∙ (unfold parse_parts in refl))
parse_parts-dotted n (m ∷ o) h ho =
    rw (split-append b'.' (format_uint n) _ (digits-Lacks _ (All-format_uint n)))
      (parse_parts-number n _ h ∙ ap (λ r. n ∷ r) (parse_parts-dotted m o ho.0 ho.1))

-- The text of a visible OID begins with a digit, so nothing is trimmed.
parse_trimmed-trim_dot :
    (s rest : Bytes)
    → s ≢ []
    → All IsDigit s
    → parse_trimmed (trim_dot (s ++ rest)) ≡ parse_parts (split b'.' (s ++ rest))
unfolding parse_trimmed trim_dot
parse_trimmed-trim_dot [] rest ne h = absurd (ne refl)
parse_trimmed-trim_dot (c ∷ s) rest ne h = ground arith

-- Parsing the print of an OID whose items are uint32 gives the OID back.
pub parse_oid-oid_string : (o : Oid) → IsOid32 o → parse_oid (oid_string o) ≡ o
parse_oid-oid_string o h =
    unfold parse_oid in rw (trim_space_visible (oid_string o) (oid_string-IsVisible o)) (go o h)
  where
    go : (o : Oid) → IsOid32 o → parse_trimmed (trim_dot (oid_string o)) ≡ o
    go [] h = unfold oid_string parse_trimmed trim_dot in refl
    go (n ∷ o) h =
        unfold oid_string in
        parse_trimmed-trim_dot (format_uint n) (dotted o) (format_uint-ne-nil n) (All-format_uint n)
        ∙ parse_parts-dotted n o h.0 h.1

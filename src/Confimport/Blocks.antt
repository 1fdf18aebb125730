-- ===== src/Confimport/Blocks.antt =====
-- The loops over the inline blocks (internal/confimport/inline.go) of an ASCII text end, and leave no block.
use openvpnd.Base.{
  ℕ, zero, suc, ◌+◌, ◌-◌, ◌≤◌, ◌<◌, ◌≡◌, refl, sym, ap, ◌∙◌, inl, inr, true, none, some, [], ◌∷◌,
  ◌++◌, map, length, take, drop, length-append, length-take, length-drop, arith, Option-cases,
  Holds, Holds-some, Holds-bind, if_lem, All,
}
use openvpnd.Base.Text.{Bytes, codes, to_lower}
use openvpnd.Base.Strings.{starts_with, index}
use openvpnd.Base.Assoc.{Assoc, put}
use openvpnd.Confimport.Inline.{open_tag, close_tag, find_block, cut_block, content_of, extract_tag}

starts_with-length : (p s : Bytes) → starts_with p s ≡ true → length p ≤ length s
unfolding starts_with
starts_with-length [] s h = omega arith
starts_with-length (c ∷ p) [] h = ground arith
starts_with-length (c ∷ p) (d ∷ s) h = ground (arith, starts_with-length p s)

-- A string that is found lies within the text.
index-within : (s sub : Bytes) → Holds (λ i. i + length sub ≤ length s) (index s sub)
unfolding index
index-within [] sub =
    if_lem (Holds (λ i. i + length sub ≤ 0)) (starts_with sub [])
      (λ e. let fits = starts_with-length sub [] e in omega (arith, fits)) (λ e. tt)
index-within (c ∷ s) sub =
    if_lem (Holds (λ i. i + length sub ≤ suc (length s))) (starts_with sub (c ∷ s))
      (λ e. let fits = starts_with-length sub (c ∷ s) e in omega (arith, fits))
      (λ e.
        Holds-bind (λ i. i + length sub ≤ length s) (λ i. i + length sub ≤ suc (length s))
          (index s sub) (λ i. some (suc i)) (index-within s sub) (λ i h. omega (arith, h)))

length-map : (f : ℕ → ℕ) (s : Bytes) → length (map f s) ≡ length s
length-map f [] = refl
length-map f (c ∷ s) = ap suc (length-map f s)

length-to_lower : (s : Bytes) → length (to_lower s) ≡ length s
unfolding to_lower
length-to_lower s = length-map _ s

-- A block that is found lies within the body.
abbrev IsWithin : Bytes → Bytes → ℕ × ℕ → Type 0
IsWithin tag body r =
    (length (open_tag tag) ≤ r.0) × (r.0 + r.1 + length (close_tag tag) ≤ length body)

find_block-IsWithin : (tag body : Bytes) → Holds (IsWithin tag body) (find_block tag body)
unfolding find_block
find_block-IsWithin tag body =
    let low = to_lower body in
    let opening = open_tag tag in
    Holds-bind (λ i. i + length opening ≤ length low) (IsWithin tag body) (index low opening) _
      (index-within low opening)
      λ i h.
        let rest = drop (i + length opening) low in
        Holds-bind (λ j. j + length (close_tag tag) ≤ length rest) (IsWithin tag body)
          (index rest (close_tag tag)) _ (index-within rest (close_tag tag))
          λ j k.
            let cut = length-drop (i + length opening) low in
            let same = length-to_lower body in (omega arith, omega (arith, h, k, cut, same))

-- What is left is shorter.
length-cut_block :
    (tag : Bytes) (start j : ℕ) (body : Bytes)
    → IsWithin tag body (start, j)
    → length (cut_block tag start j body) < length body
length-cut_block tag start j body h =
    let front = take (start - length (open_tag tag)) body in
    let back = drop (start + j + length (close_tag tag)) body in
    let whole = length-append (front ++ codes "\n") back in
    let tail = length-append front (codes "\n") in
    let mark : 2 ≤ length (close_tag tag) = omega arith in
    let before = length-take (start - length (open_tag tag)) body in
    let behind = length-drop (start + j + length (close_tag tag)) body in
    omega (arith, whole, tail, mark, before, behind, h.0, h.1)

no_block-zero : (tag body : Bytes) → length body ≤ 0 → find_block tag body ≡ none
no_block-zero tag body h = elim (Option-cases (find_block tag body)) [
  | inl e ↦ e
  | inr (r, e) ↦
      let within =
        Holds-some (IsWithin tag body) (find_block tag body) (find_block-IsWithin tag body) e in
      absurd (omega (arith, within.0, within.1, h))
]

extract_tag_stop :
    (fuel : ℕ) (tag : Bytes) (blocks : Assoc Bytes) (body : Bytes)
    → find_block tag body ≡ none
    → extract_tag fuel tag (blocks, body) ≡ (blocks, body)
unfolding extract_tag
extract_tag_stop zero tag blocks body e = refl
extract_tag_stop (suc fuel) tag blocks body e = rw (e, extract_tag) refl

extract_tag_step :
    (fuel : ℕ) (tag : Bytes) (blocks : Assoc Bytes) (body : Bytes) (start j : ℕ)
    → find_block tag body ≡ some (start, j)
    → extract_tag (suc fuel) tag (blocks, body)
      ≡ extract_tag fuel tag (put tag (content_of start j body) blocks, cut_block tag start j body)
unfolding extract_tag
extract_tag_step fuel tag blocks body start j e = rw (e, extract_tag) refl

-- The loop has ended, and further rounds change nothing.
abbrev pub HasEnded : ℕ → Bytes → Assoc Bytes × Bytes → Type 0
HasEnded fuel tag state =
    (find_block tag ((extract_tag fuel tag state).1) ≡ none)
    × ((g : ℕ) → fuel ≤ g → extract_tag g tag state ≡ extract_tag fuel tag state)

stopped :
    (fuel : ℕ) (tag : Bytes) (blocks : Assoc Bytes) (body : Bytes)
    → find_block tag body ≡ none
    → HasEnded fuel tag (blocks, body)
stopped fuel tag blocks body e =
    let stop = λ (g : ℕ). extract_tag_stop g tag blocks body e in
    (ap (λ s. find_block tag (s.1)) (stop fuel) ∙ e, λ g k. stop g ∙ sym (stop fuel))

stepped :
    (fuel : ℕ) (tag : Bytes) (blocks : Assoc Bytes) (body : Bytes) (start j : ℕ)
    → find_block tag body ≡ some (start, j)
    → HasEnded fuel tag (put tag (content_of start j body) blocks, cut_block tag start j body)
    → HasEnded (suc fuel) tag (blocks, body)
stepped fuel tag blocks body start j e h =
    let step = λ (g : ℕ). extract_tag_step g tag blocks body start j e in
    (
      ap (λ s. find_block tag (s.1)) (step fuel) ∙ h.0,
      λ g k.
          elim g
              as (λ g.
                suc fuel ≤ g
                → extract_tag g tag (blocks, body) ≡ extract_tag (suc fuel) tag (blocks, body)) [
                  | zero ↦ λ k. absurd (omega arith)
                  | suc g ↦ λ k. step g ∙ h.1 g (omega (arith, k)) ∙ sym (step fuel)
                ]
            k,
    )

extract_tag_ends :
    (fuel : ℕ) (tag : Bytes) (blocks : Assoc Bytes) (body : Bytes)
    → length body ≤ fuel
    → HasEnded fuel tag (blocks, body)
extract_tag_ends zero tag blocks body h = stopped zero tag blocks body (no_block-zero tag body h)
extract_tag_ends (suc fuel) tag blocks body h = elim (Option-cases (find_block tag body)) [
  | inl e ↦ stopped (suc fuel) tag blocks body e
  | inr ((start, j), e) ↦
      let within =
        Holds-some (IsWithin tag body) (find_block tag body) (find_block-IsWithin tag body) e in
      let shorter = length-cut_block tag start j body within in
      stepped fuel tag blocks body start j e (
        extract_tag_ends fuel tag (put tag (content_of start j body) blocks)
          (cut_block tag start j body) (omega (arith, shorter, h)))
]

-- A byte of ASCII, whose lower case is one byte too.
abbrev pub IsAscii : ℕ → Type 0
IsAscii c = c < 0x80

-- On an ASCII body, with a round for each byte of it, the loop for a tag ends because the body has no block of
-- the tag any more, and further rounds would change nothing.
pub extract_tag-HasEnded :
    (fuel : ℕ) (tag : Bytes) (blocks : Assoc Bytes) (body : Bytes)
    → All IsAscii body
    → length body ≤ fuel
    → HasEnded fuel tag (blocks, body)
extract_tag-HasEnded fuel tag blocks body ascii h = extract_tag_ends fuel tag blocks body h

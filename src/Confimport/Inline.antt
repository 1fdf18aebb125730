-- ===== src/Confimport/Inline.antt =====
-- The inline blocks `<tag>...</tag>` (internal/confimport/inline.go). Positions are those of the text in
-- lower case, which has the length of the text when it is ASCII.
use openvpnd.Base.{
  ℕ, zero, suc, ◌+◌, ◌-◌, Option, none, some, List, [], ◌∷◌, ◌++◌, length, take, drop, ◌>>=◌,
}
use openvpnd.Base.Text.{Bytes, codes, trim_space, to_lower}
use openvpnd.Base.Strings.{index}
use openvpnd.Base.Assoc.{Assoc, put}

-- `InlineTags`.
abbrev pub inline_tags : List Bytes
inline_tags =
    codes "ca"
    ∷ codes "cert"
    ∷ codes "key"
    ∷ codes "tls-crypt"
    ∷ codes "tls-auth"
    ∷ codes "secret"
    ∷ codes "dh"
    ∷ codes "extra-certs"
    ∷ codes "tls-crypt-v2"
    ∷ []

abbrev pub open_tag : Bytes → Bytes
open_tag tag = codes "<" ++ tag ++ codes ">"

abbrev pub close_tag : Bytes → Bytes
close_tag tag = codes "</" ++ tag ++ codes ">"

-- Where the content of the first block begins, and how long it is.
unfoldable pub find_block : Bytes → Bytes → Option (ℕ × ℕ)
find_block tag body =
    let low = to_lower body in
    index low (open_tag tag) >>= λ i.
    index (drop (i + length (open_tag tag)) low) (close_tag tag) >>= λ j.
    some (i + length (open_tag tag), j)

-- The body without the block whose content has `j` bytes from `start` on.
abbrev pub cut_block : Bytes → ℕ → ℕ → Bytes → Bytes
cut_block tag start j body =
    take (start - length (open_tag tag)) body
    ++ codes "\n"
    ++ drop (start + j + length (close_tag tag)) body

abbrev pub content_of : ℕ → ℕ → Bytes → Bytes
content_of start j body = trim_space (take j (drop start body)) ++ codes "\n"

-- The loop for one tag, with fuel.
unfoldable pub extract_tag : ℕ → Bytes → Assoc Bytes × Bytes → Assoc Bytes × Bytes
unfolding find_block
extract_tag zero tag (blocks, body) = (blocks, body)
extract_tag (suc fuel) tag (blocks, body) = elim (find_block tag body) [
  | none ↦ (blocks, body)
  | some (start, j) ↦
      extract_tag fuel tag (put tag (content_of start j body) blocks, cut_block tag start j body)
]

-- One round for each byte: a block that is cut out is longer than what takes its place.
unfoldable pub extract_tags : List Bytes → Assoc Bytes × Bytes → Assoc Bytes × Bytes
unfolding extract_tag
extract_tags [] (blocks, body) = (blocks, body)
extract_tags (t ∷ ts) (blocks, body) = extract_tags ts (extract_tag (length body) t (blocks, body))

-- `ExtractInlineBlocks`.
unfoldable pub extract_inline_blocks : Bytes → Assoc Bytes × Bytes
unfolding extract_tags
extract_inline_blocks content = extract_tags inline_tags ([], content)

-- `inlineWarning`.
abbrev pub inline_warning : Bytes → Bytes
inline_warning tag =
    codes "inline <"
    ++ tag
    ++ codes "> block present; will be written on create (or call Materialize)"

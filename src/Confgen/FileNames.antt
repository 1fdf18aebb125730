-- ===== src/Confgen/FileNames.antt =====
-- The name of a client's file stays inside its directory (internal/confgen/render.go).
use openvpnd.Base.{
  ℕ, ◌≡◌, ◌≢◌, refl, sym, Bool, true, false, ◌&&◌, ◌||◌, [], ◌∷◌, ◌==◌, if_lem, arith,
}
use openvpnd.Base.Text.{Bytes}
use openvpnd.Base.Split.{Lacks}
use openvpnd.Base.Strings.{replace_byte}
use openvpnd.Confgen.Ccd.{replace_dots, safe_cn_filename}

abbrev dot_ahead : Bytes → Bool
dot_ahead [] = false
dot_ahead (c ∷ s) = c == b'.'

-- Two dots in a row.
abbrev pub has_dots : Bytes → Bool
has_dots [] = false
has_dots (c ∷ s) = (c == b'.') && dot_ahead s || has_dots s

replace_byte-Lacks : (b : ℕ) (s : Bytes) → b ≢ b'_' → Lacks b (replace_byte b (b'_' ∷ []) s)
unfolding replace_byte
replace_byte-Lacks b [] h = tt
replace_byte-Lacks b (c ∷ s) h =
    if_lem (Lacks b) (c == b) (λ e. (λ k. h (sym k), replace_byte-Lacks b s h))
      (λ e. (ground arith, replace_byte-Lacks b s h))

replace_byte-keeps :
    (b d : ℕ) (s : Bytes) → d ≢ b'_' → Lacks d s → Lacks d (replace_byte b (b'_' ∷ []) s)
unfolding replace_byte
replace_byte-keeps b d [] h k = tt
replace_byte-keeps b d (c ∷ s) h k =
    if_lem (Lacks d) (c == b) (λ e. (λ l. h (sym l), replace_byte-keeps b d s h k.1))
      (λ e. (k.0, replace_byte-keeps b d s h k.1))

replace_dots-keeps : (d : ℕ) (s : Bytes) → d ≢ b'_' → Lacks d s → Lacks d (replace_dots s)
unfolding replace_dots
replace_dots-keeps d [] h k = tt
replace_dots-keeps d (c ∷ []) h k = k
replace_dots-keeps d (c ∷ e ∷ s) h k =
    if_lem (Lacks d) ((c == b'.') && (e == b'.'))
      (λ _. (λ l. h (sym l), replace_dots-keeps d s h k.1.1))
      (λ _. (k.0, replace_dots-keeps d (e ∷ s) h k.1))

-- A dot at the front was there before.
dot_ahead-replace_dots : (s : Bytes) → dot_ahead (replace_dots s) ≡ true → dot_ahead s ≡ true
unfolding replace_dots
dot_ahead-replace_dots [] h = h
dot_ahead-replace_dots (c ∷ []) h = h
dot_ahead-replace_dots (c ∷ d ∷ s) h = ground arith

has_dots-replace_dots : (s : Bytes) → has_dots (replace_dots s) ≡ false
unfolding replace_dots
has_dots-replace_dots [] = refl
has_dots-replace_dots (c ∷ []) = ground arith
has_dots-replace_dots (c ∷ d ∷ s) =
    ground (
      arith,
      has_dots-replace_dots s,
      has_dots-replace_dots (d ∷ s),
      dot_ahead-replace_dots (d ∷ s),
    )

replace_dots_same : (s : Bytes) → has_dots s ≡ false → replace_dots s ≡ s
unfolding replace_dots
replace_dots_same [] h = refl
replace_dots_same (c ∷ []) h = refl
replace_dots_same (c ∷ d ∷ s) h = ground (arith, replace_dots_same (d ∷ s))

replace_byte_same : (b : ℕ) (s : Bytes) → Lacks b s → replace_byte b (b'_' ∷ []) s ≡ s
unfolding replace_byte
replace_byte_same b [] h = refl
replace_byte_same b (c ∷ s) h = ground (arith, replace_byte_same b s h.1)

abbrev pub IsSafe : Bytes → Type 0
IsSafe s = Lacks b'/' s × Lacks b'\\' s × (has_dots s ≡ false)

-- For every common name the name of the client's file has neither a slash nor a backslash nor two dots in a
-- row, and a common name that has none of these is taken as it is.
pub safe_cn_filename-IsSafe :
    (cn : Bytes) → IsSafe (safe_cn_filename cn) × (IsSafe cn → safe_cn_filename cn ≡ cn)
unfolding safe_cn_filename
safe_cn_filename-IsSafe cn =
    let slashes = replace_byte b'/' (b'_' ∷ []) cn in
    let both = replace_byte b'\\' (b'_' ∷ []) slashes in
    (
      (
        replace_dots-keeps b'/' both (omega arith) (
            replace_byte-keeps b'\\' b'/' slashes (omega arith)
              (replace_byte-Lacks b'/' cn (omega arith))),
        replace_dots-keeps b'\\' both (omega arith)
            (replace_byte-Lacks b'\\' slashes (omega arith)),
        has_dots-replace_dots both,
      ),
      λ h.
          rw (replace_byte_same b'/' cn h.0, replace_byte_same b'\\' cn h.1)
            (replace_dots_same cn h.2),
    )

-- ===== src/Netutil/Dotted.antt =====
-- The print of an IPv4 address is read back, and a mask keeps its prefix length.
use openvpnd.Base.{
  ℕ, suc, ◌+◌, ◌/◌, ◌%◌, ◌^◌, ◌<◌, ◌≡◌, refl, ◌∙◌, some, List, [], ◌∷◌, ◌++◌, ltb, All, All-append,
  arith, if_lem, all_below_at, if◌then◌else◌,
}
use openvpnd.Base.Text.{Bytes, bytes_eq, bytes_eq→eq, IsVisible}
use openvpnd.Base.Decimal.{digits, format_uint, IsDigit, All-format_uint}
use openvpnd.Net.{ipv4_fields, parse_ipv4}
use openvpnd.Netutil.{number}
use openvpnd.Netutil.Convert.{bytes_of, dotted_bytes, format_ipv4}

abbrev byte_text : ℕ → Bytes
byte_text b =
    if ltb b 10
    then (b'0' + b) ∷ []
    else if ltb b 100
    then (b'0' + b / 10) ∷ (b'0' + b % 10) ∷ []
    else (b'0' + b / 100) ∷ (b'0' + b / 10 % 10) ∷ (b'0' + b % 10) ∷ []

-- The digits of a byte.
byte_digits : (b : ℕ) → b < 256 → format_uint b ≡ byte_text b
unfolding format_uint digits bytes_eq
byte_digits b h =
    bytes_eq→eq (format_uint b) (byte_text b)
      (all_below_at 256 (λ i. bytes_eq (format_uint i) (byte_text i)) refl b h)

-- A byte and the dot behind it are read; the last one ends the text.
read_byte :
    (k b : ℕ) (done : List ℕ) (s : Bytes)
    → b < 256
    → ipv4_fields (suc k) 0 0 done (format_uint b ++ (b'.' ∷ s))
      ≡ ipv4_fields k 0 0 (done ++ (b ∷ [])) s
unfolding ipv4_fields
read_byte k b done s h = rw (byte_digits b h) (
    if_lem
      (λ t. ipv4_fields (suc k) 0 0 done (t ++ (b'.' ∷ s)) ≡ ipv4_fields k 0 0 (done ++ (b ∷ [])) s)
      (ltb b 10) (λ e. ground arith)
      (λ e.
        if_lem
          (λ t.
            ipv4_fields (suc k) 0 0 done (t ++ (b'.' ∷ s)) ≡ ipv4_fields k 0 0 (done ++ (b ∷ [])) s)
          (ltb b 100) (λ d. ground arith) (λ d. ground arith)))

read_last :
    (b : ℕ) (done : List ℕ)
    → b < 256
    → ipv4_fields 0 0 0 done (format_uint b) ≡ some (done ++ (b ∷ []))
unfolding ipv4_fields
read_last b done h = rw (byte_digits b h) (ground arith)

-- Four bytes are read back from their dotted form.
parse_ipv4-dotted :
    (a b c d : ℕ)
    → a < 256
    → b < 256
    → c < 256
    → d < 256
    → parse_ipv4 (dotted_bytes (a ∷ b ∷ c ∷ d ∷ [])) ≡ some (a ∷ b ∷ c ∷ d ∷ [])
unfolding parse_ipv4 dotted_bytes
parse_ipv4-dotted a b c d ha hb hc hd =
    read_byte 2 a [] (format_uint b ++ (b'.' ∷ format_uint c ++ (b'.' ∷ format_uint d))) ha
    ∙ read_byte 1 b (a ∷ []) (format_uint c ++ (b'.' ∷ format_uint d)) hb
    ∙ read_byte 0 c (a ∷ b ∷ []) (format_uint d) hc
    ∙ read_last d (a ∷ b ∷ c ∷ []) hd

pub parse_ipv4-format_ipv4 : (a : ℕ) → a < 2 ^ 32 → parse_ipv4 (format_ipv4 a) ≡ some (bytes_of a)
unfolding format_ipv4
parse_ipv4-format_ipv4 a h =
    parse_ipv4-dotted (a / 2 ^ 24) (a / 2 ^ 16 % 256) (a / 2 ^ 8 % 256) (a % 256) (omega arith)
      (omega arith) (omega arith) (omega arith)

pub number-bytes_of : (a : ℕ) → a < 2 ^ 32 → number (bytes_of a) ≡ a
unfolding number
number-bytes_of a h = omega arith

digit-IsVisible : (s : Bytes) → All IsDigit s → All IsVisible s
digit-IsVisible [] h = tt
digit-IsVisible (c ∷ s) h = (omega arith, digit-IsVisible s h.1)

dotted_bytes-IsVisible : (bs : List ℕ) → All IsVisible (dotted_bytes bs)
unfolding dotted_bytes
dotted_bytes-IsVisible [] = tt
dotted_bytes-IsVisible (b ∷ []) = digit-IsVisible (format_uint b) (All-format_uint b)
dotted_bytes-IsVisible (b ∷ c ∷ bs) =
    All-append IsVisible (format_uint b) (b'.' ∷ dotted_bytes (c ∷ bs))
      (digit-IsVisible (format_uint b) (All-format_uint b))
      (omega arith, dotted_bytes-IsVisible (c ∷ bs))

pub format_ipv4-IsVisible : (a : ℕ) → All IsVisible (format_ipv4 a)
unfolding format_ipv4
format_ipv4-IsVisible a = dotted_bytes-IsVisible (bytes_of a)

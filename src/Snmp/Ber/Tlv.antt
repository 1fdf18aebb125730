-- ===== src/Snmp/Ber/Tlv.antt =====
-- A TLV is read back from its bytes, whatever follows.
use openvpnd.Base.{
  ℕ, ◌+◌, ◌^◌, ◌≤◌, ◌<◌, ◌≡◌, some, ◌++◌, append_assoc, arith, length, length-append, take_exact,
  drop_exact,
}
use openvpnd.Base.Text.{Bytes}
use openvpnd.Snmp.Ber.{encode_length, wrap_tlv, read_length, cut_content, read_tlv}

pub length-encode_length : (n : ℕ) → (1 ≤ length (encode_length n)) × (length (encode_length n) ≤ 4)
unfolding encode_length
length-encode_length n = ground arith

pub length-wrap_tlv :
    (tag : ℕ) (c : Bytes)
    → (length c + 2 ≤ length (wrap_tlv tag c)) × (length (wrap_tlv tag c) ≤ length c + 5)
unfolding wrap_tlv
length-wrap_tlv tag c =
    ground (arith, length-append (encode_length (length c)) c, length-encode_length (length c))

pub read_length-encode_length :
    (n : ℕ) (rest : Bytes) → n < 2 ^ 24 → read_length (encode_length n ++ rest) ≡ some (n, rest)
unfolding read_length encode_length
read_length-encode_length n rest h = ground arith

cut_content_exact :
    (tag : ℕ) (c rest : Bytes) → cut_content tag (length c) (c ++ rest) ≡ some (tag, c, rest)
unfolding cut_content
cut_content_exact tag c rest =
    ground (arith, length-append c rest, take_exact c rest, drop_exact c rest)

-- A TLV whose content is below 2^24 bytes is read as its tag, its content and the rest.
pub read_tlv-wrap_tlv :
    (tag : ℕ) (c rest : Bytes)
    → length c < 2 ^ 24
    → read_tlv (wrap_tlv tag c ++ rest) ≡ some (tag, c, rest)
unfolding read_tlv wrap_tlv
read_tlv-wrap_tlv tag c rest h = rw append_assoc (
    rw (read_length-encode_length (length c) (c ++ rest) h, read_tlv)
      (cut_content_exact tag c rest))

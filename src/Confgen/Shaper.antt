-- ===== src/Confgen/Shaper.antt =====
-- The rate that OpenVPN limits itself to (internal/confgen/render.go).
use openvpnd.Base.{ℕ, ◌/◌, List, [], ◌∷◌, ◌++◌, ltb, if◌then◌else◌}
use openvpnd.Base.Int.{ℤ, pos, ltb_ℤ, pos_part}
use openvpnd.Base.Text.{Bytes, codes, bytes_eq, trim_space, to_lower}
use openvpnd.Base.Decimal.{format_uint}
use openvpnd.Base.Strings.{equal_fold}
use openvpnd.Models.{Instance, Client}
use openvpnd.Confgen.{when, text_line}

abbrev larger : ℤ → ℤ → ℤ
larger most v = if ltb_ℤ most v then v else most

abbrev rates : Client → ℤ × ℤ
rates c =
    if ltb_ℤ (pos 0) c.bandwidth_total_bps
    then (c.bandwidth_total_bps, c.bandwidth_total_bps)
    else (c.bandwidth_rx_bps, c.bandwidth_tx_bps)

unfoldable pub max_bits_of : ℤ → List Client → ℤ
max_bits_of most [] = most
max_bits_of most (c ∷ cs) = max_bits_of (larger (larger most ((rates c).0)) ((rates c).1)) cs

-- The largest of the rates that count for the role; 0 for no limit.
unfoldable pub max_bits : Instance → List Client → ℤ
unfolding max_bits_of
max_bits inst clients =
    let role = to_lower (trim_space inst.role) in
    if bytes_eq role (codes "server")
    then larger (larger (max_bits_of (pos 0) clients) inst.bandwidth_rx_bps) inst.bandwidth_tx_bps
    else if bytes_eq role (codes "client")
    then larger inst.bandwidth_rx_bps inst.bandwidth_tx_bps
    else pos 0

unfoldable pub bytes_per_sec : ℕ → ℕ
bytes_per_sec bits = if ltb (bits / 8) 1 then 1 else bits / 8

unfoldable pub shaper_lines : Bytes → Instance → List Client → List Bytes
unfolding max_bits bytes_per_sec
shaper_lines enforcement inst clients =
    let most = max_bits inst clients in
    when (equal_fold (trim_space enforcement) (codes "shaper")) (
      when (ltb_ℤ (pos 0) most) (
        []
        ∷ (codes "# bandwidth_enforcement=shaper (outgoing only; role=" ++ inst.role ++ codes ")")
        ∷ text_line (codes "shaper") (format_uint (bytes_per_sec (pos_part most)))))

-- ===== src/Bandwidth/Plan.antt =====
-- The tc rules for a client or a device, and the shaper rate (internal/bandwidth/bandwidth.go).
-- A rate is an int64 in bits per second.
mod Rules
mod DeviceRules
unfoldable pub use Rules.*
unfoldable pub use DeviceRules.*
use openvpnd.Base.{
  ℕ, ◌+◌, ◌*◌, ◌/◌, Bool, true, false, not, ◌&&◌, ◌||◌, List, [], ◌∷◌, ◌++◌, ltb, ◌==◌, length,
  if◌then◌else◌,
}
use openvpnd.Base.Int.{ℤ, pos_part}
use openvpnd.Base.Text.{Bytes, codes, bytes_eq, trim_space, to_lower}
use openvpnd.Base.Decimal.{format_uint, format_int}
use openvpnd.Net.{is_ip}

pub data Mode : Type 0 where
  off : Mode
  tc : Mode
  shaper : Mode
  log : Mode

unfoldable pub normalize_mode : Bytes → Mode
normalize_mode s =
    let m = to_lower (trim_space s) in
    if bytes_eq m (codes "tc") || bytes_eq m (codes "htb")
    then Mode.tc
    else if bytes_eq m (codes "shaper")
    then Mode.shaper
    else if bytes_eq m (codes "log")
    then Mode.log
    else Mode.off

pub record ClientLimit : Type 0 where
  pub common_name : Bytes
  pub static_ip : Bytes
  pub rx_bps : ℤ
  pub tx_bps : ℤ

pub record PlanInput : Type 0 where
  pub device : Bytes
  pub static_ip : Bytes
  pub rx_bps : ℤ
  pub tx_bps : ℤ
  pub class_id : ℕ

abbrev class_or_default : ℕ → ℕ
class_or_default n = if n == 0 then 10 else if ltb n 2 then 2 else n

abbrev pub is_empty : Bytes → Bool
is_empty s = length s == 0

-- `Plan`.
unfoldable pub plan : PlanInput → List Rule
unfolding root_rules egress_rules ingress_rules
plan p =
    let dev = trim_space p.device in
    let ip = trim_space p.static_ip in
    let class_id = class_or_default p.class_id in
    if is_empty dev
      || is_empty ip
      || not (is_ip ip)
      || not (is_positive p.rx_bps || is_positive p.tx_bps)
    then []
    else root_rules dev
      ++ ((if is_positive p.rx_bps then egress_rules dev ip p.rx_bps class_id else [])
          ++ (if is_positive p.tx_bps then ingress_rules dev ip p.tx_bps class_id else []))

unfoldable pub apply_rules : List Rule → List Rule
apply_rules [] = []
apply_rules (r ∷ rs) = let rest = apply_rules rs in if r.undo then rest else r ∷ rest

-- The undo rules, the last one first.
unfoldable pub remove_rules : List Rule → List Rule
remove_rules [] = []
remove_rules (r ∷ rs) = remove_rules rs ++ (if r.undo then r ∷ [] else [])

unfoldable pub needs_shaping : Bytes → ℤ → ℤ → Bool
needs_shaping ip rx tx = not (is_empty (trim_space ip)) && (is_positive rx || is_positive tx)

unfoldable pub needs_device_shaping : ℤ → ℤ → Bool
needs_device_shaping rx tx = is_positive rx || is_positive tx

-- `PlanDevice`: upload by a class for all that leaves, download by a police for all that arrives.
unfoldable pub plan_device : Bytes → ℤ → ℤ → List Rule
unfolding device_egress_rules device_ingress_rules needs_device_shaping
plan_device device rx tx =
    let dev = trim_space device in
    if is_empty dev || not (needs_device_shaping rx tx)
    then []
    else (if is_positive tx then device_egress_rules dev tx else [])
      ++ (if is_positive rx then device_ingress_rules dev rx else [])

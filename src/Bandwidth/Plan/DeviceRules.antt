-- ===== src/Bandwidth/Plan/DeviceRules.antt =====
-- The tc commands for a whole device (internal/bandwidth/bandwidth.go).
use openvpnd.Base.{List, [], ◌∷◌}
use openvpnd.Base.Int.{ℤ}
use openvpnd.Base.Text.{Bytes, codes}
use openvpnd.Bandwidth.Plan.Rules.{Rule, format_bit_rate, ingress_burst, text, rule, undo_rule}

unfoldable pub device_egress_rules : Bytes → ℤ → List Rule
unfolding format_bit_rate
device_egress_rules dev tx =
    let rate = format_bit_rate tx in
    rule
      (codes "qdisc"
        ∷ codes "replace"
        ∷ codes "dev"
        ∷ dev
        ∷ codes "root"
        ∷ codes "handle"
        ∷ codes "1:"
        ∷ codes "htb"
        ∷ codes "default"
        ∷ codes "10"
        ∷ [])
      (text (codes "device root htb on " ∷ dev ∷ []))
    ∷ rule
        (codes "class"
          ∷ codes "replace"
          ∷ codes "dev"
          ∷ dev
          ∷ codes "parent"
          ∷ codes "1:"
          ∷ codes "classid"
          ∷ codes "1:10"
          ∷ codes "htb"
          ∷ codes "rate"
          ∷ rate
          ∷ codes "ceil"
          ∷ rate
          ∷ [])
        (text (codes "device egress class rate " ∷ rate ∷ codes " on " ∷ dev ∷ []))
    ∷ undo_rule
        (codes "class" ∷ codes "del" ∷ codes "dev" ∷ dev ∷ codes "classid" ∷ codes "1:10" ∷ [])
        (text (codes "undo device egress class on " ∷ dev ∷ []))
    ∷ undo_rule (codes "qdisc" ∷ codes "del" ∷ codes "dev" ∷ dev ∷ codes "root" ∷ [])
        (text (codes "undo device root qdisc on " ∷ dev ∷ []))
    ∷ []

unfoldable pub device_ingress_rules : Bytes → ℤ → List Rule
unfolding format_bit_rate ingress_burst
device_ingress_rules dev rx =
    let rate = format_bit_rate rx in
    rule
      (codes "qdisc"
        ∷ codes "replace"
        ∷ codes "dev"
        ∷ dev
        ∷ codes "handle"
        ∷ codes "ffff:"
        ∷ codes "ingress"
        ∷ [])
      (text (codes "device ingress qdisc on " ∷ dev ∷ []))
    ∷ rule
        (codes "filter"
          ∷ codes "replace"
          ∷ codes "dev"
          ∷ dev
          ∷ codes "parent"
          ∷ codes "ffff:"
          ∷ codes "protocol"
          ∷ codes "ip"
          ∷ codes "prio"
          ∷ codes "1"
          ∷ codes "u32"
          ∷ codes "match"
          ∷ codes "u32"
          ∷ codes "0"
          ∷ codes "0"
          ∷ codes "police"
          ∷ codes "rate"
          ∷ rate
          ∷ codes "burst"
          ∷ ingress_burst rx
          ∷ codes "drop"
          ∷ codes "flowid"
          ∷ codes ":1"
          ∷ [])
        (text (codes "device ingress police rate " ∷ rate ∷ codes " on " ∷ dev ∷ []))
    ∷ undo_rule
        (codes "filter"
          ∷ codes "del"
          ∷ codes "dev"
          ∷ dev
          ∷ codes "parent"
          ∷ codes "ffff:"
          ∷ codes "prio"
          ∷ codes "1"
          ∷ [])
        (text (codes "undo device ingress filter on " ∷ dev ∷ []))
    ∷ undo_rule
        (codes "qdisc"
          ∷ codes "del"
          ∷ codes "dev"
          ∷ dev
          ∷ codes "handle"
          ∷ codes "ffff:"
          ∷ codes "ingress"
          ∷ [])
        (text (codes "undo device ingress qdisc on " ∷ dev ∷ []))
    ∷ []

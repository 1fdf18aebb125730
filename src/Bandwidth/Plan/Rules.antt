-- ===== src/Bandwidth/Plan/Rules.antt =====
-- The tc commands of a plan (internal/bandwidth/bandwidth.go): the rules for the root of a device, for a
-- client's two directions and for a whole device.
use openvpnd.Base.{ℕ, ◌+◌, ◌*◌, ◌/◌, Bool, true, false, List, [], ◌∷◌, ◌++◌, ltb, if◌then◌else◌}
use openvpnd.Base.Int.{ℤ, pos_part}
use openvpnd.Base.Text.{Bytes, codes}
use openvpnd.Base.Decimal.{format_uint, format_int}

pub record Rule : Type 0 where
  pub bin : Bytes
  pub args : List Bytes
  pub desc : Bytes
  pub undo : Bool

abbrev pub is_positive : ℤ → Bool
is_positive z = ltb 0 (pos_part z)

unfoldable pub format_bit_rate : ℤ → Bytes
format_bit_rate z = if is_positive z then format_int z ++ codes "bit" else codes "1bit"

-- The number of bytes in a burst. Go's division rounds towards 0, so a negative rate has none.
unfoldable pub burst_bytes : ℤ → ℕ
burst_bytes z =
    let burst = pos_part z / 8 / 20 in
    if ltb burst 2048 then 2048 else if ltb (512 * 1024) burst then 512 * 1024 else burst

unfoldable pub ingress_burst : ℤ → Bytes
ingress_burst z = format_uint (burst_bytes z)

abbrev pub text : List Bytes → Bytes
text [] = []
text (s ∷ ss) = s ++ text ss

-- A command that sets, and one that takes back.
abbrev pub rule : List Bytes → Bytes → Rule
rule args desc = record { bin = codes "tc"; args = args; desc = desc; undo = false }

abbrev pub undo_rule : List Bytes → Bytes → Rule
undo_rule args desc = record { bin = codes "tc"; args = args; desc = desc; undo = true }

unfoldable pub root_rules : Bytes → List Rule
root_rules dev =
    rule
      (codes "qdisc"
        ∷ codes "replace"
        ∷ codes "dev"
        ∷ dev
        ∷ codes "root"
        ∷ codes "handle"
        ∷ codes "1:"
        ∷ codes "htb"
        ∷ codes "default"
        ∷ codes "999"
        ∷ [])
      (text (codes "root htb on " ∷ dev ∷ []))
    ∷ rule
        (codes "class"
          ∷ codes "replace"
          ∷ codes "dev"
          ∷ dev
          ∷ codes "parent"
          ∷ codes "1:"
          ∷ codes "classid"
          ∷ codes "1:1"
          ∷ codes "htb"
          ∷ codes "rate"
          ∷ codes "10gbit"
          ∷ [])
        (text (codes "parent class on " ∷ dev ∷ []))
    ∷ []

unfoldable pub egress_rules : Bytes → Bytes → ℤ → ℕ → List Rule
unfolding format_bit_rate
egress_rules dev ip rx class_id =
    let rate = format_bit_rate rx in
    let pref = format_uint class_id in
    let flowid = codes "1:" ++ pref in
    rule
      (codes "class"
        ∷ codes "replace"
        ∷ codes "dev"
        ∷ dev
        ∷ codes "parent"
        ∷ codes "1:1"
        ∷ codes "classid"
        ∷ flowid
        ∷ codes "htb"
        ∷ codes "rate"
        ∷ rate
        ∷ codes "ceil"
        ∷ rate
        ∷ [])
      (text (codes "egress class " ∷ flowid ∷ codes " rate " ∷ rate ∷ codes " for " ∷ ip ∷ []))
    ∷ rule
        (codes "filter"
          ∷ codes "replace"
          ∷ codes "dev"
          ∷ dev
          ∷ codes "protocol"
          ∷ codes "ip"
          ∷ codes "parent"
          ∷ codes "1:"
          ∷ codes "prio"
          ∷ pref
          ∷ codes "u32"
          ∷ codes "match"
          ∷ codes "ip"
          ∷ codes "dst"
          ∷ (ip ++ codes "/32")
          ∷ codes "flowid"
          ∷ flowid
          ∷ [])
        (text (codes "egress filter dst " ∷ ip ∷ codes " → " ∷ flowid ∷ []))
    ∷ undo_rule
        (codes "filter"
          ∷ codes "del"
          ∷ codes "dev"
          ∷ dev
          ∷ codes "protocol"
          ∷ codes "ip"
          ∷ codes "parent"
          ∷ codes "1:"
          ∷ codes "prio"
          ∷ pref
          ∷ [])
        (text (codes "undo egress filter prio " ∷ pref ∷ codes " on " ∷ dev ∷ []))
    ∷ undo_rule (codes "class" ∷ codes "del" ∷ codes "dev" ∷ dev ∷ codes "classid" ∷ flowid ∷ [])
        (text (codes "undo egress class " ∷ flowid ∷ codes " on " ∷ dev ∷ []))
    ∷ []

unfoldable pub ingress_rules : Bytes → Bytes → ℤ → ℕ → List Rule
unfolding format_bit_rate ingress_burst
ingress_rules dev ip tx class_id =
    let rate = format_bit_rate tx in
    let pref = format_uint (10000 + class_id) in
    rule
      (codes "qdisc"
        ∷ codes "replace"
        ∷ codes "dev"
        ∷ dev
        ∷ codes "handle"
        ∷ codes "ffff:"
        ∷ codes "ingress"
        ∷ [])
      (text (codes "ingress qdisc on " ∷ dev ∷ []))
    ∷ rule
        (codes "filter"
          ∷ codes "replace"
          ∷ codes "dev"
          ∷ dev
          ∷ codes "parent"
          ∷ codes "ffff:"
          ∷ codes "protocol"
          ∷ codes "ip"
          ∷ codes "prio"
          ∷ pref
          ∷ codes "u32"
          ∷ codes "match"
          ∷ codes "ip"
          ∷ codes "src"
          ∷ (ip ++ codes "/32")
          ∷ codes "police"
          ∷ codes "rate"
          ∷ rate
          ∷ codes "burst"
          ∷ ingress_burst tx
          ∷ codes "drop"
          ∷ codes "flowid"
          ∷ codes ":1"
          ∷ [])
        (text (codes "ingress police src " ∷ ip ∷ codes " rate " ∷ rate ∷ []))
    ∷ undo_rule
        (codes "filter"
          ∷ codes "del"
          ∷ codes "dev"
          ∷ dev
          ∷ codes "parent"
          ∷ codes "ffff:"
          ∷ codes "prio"
          ∷ pref
          ∷ [])
        (text (codes "undo ingress filter prio " ∷ pref ∷ codes " on " ∷ dev ∷ []))
    ∷ []

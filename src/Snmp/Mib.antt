-- ===== src/Snmp/Mib.antt =====
-- The MIB snapshot (internal/snmp/mib.go): its construction, `Get` and `GetNext`.
pub mod Search
pub mod Sorting
pub mod Walk
use openvpnd.Base.{
  ℕ, zero, suc, ◌+◌, ◌*◌, ◌/◌, ◌%◌, ◌^◌, ◌-◌, Bool, true, false, ◌&&◌, Option, none, some, List, [],
  ◌∷◌, ◌++◌, map, ◌==◌, ltb, leb, length, get_elem?, drop, if◌then◌else◌,
}
use openvpnd.Base.Int.{ℤ, pos, negsuc, ltb_ℤ, leb_ℤ, bits64}
use openvpnd.Base.Text.{Bytes, codes}
use openvpnd.Base.Assoc.{Assoc}
use openvpnd.Stats.Cache.{Cache, InstanceStats, ClientStats}
use openvpnd.Snmp.Oid.{Oid, parse_oid, oid_string, child, compare, equal}
use openvpnd.Snmp.Value.{Value, integer, octet, oid_value, counter64, gauge32, time_ticks}

pub record Variable : Type 0 where
  pub oid : Oid
  pub value : Value

abbrev pub Mib : Type 0
Mib = List Variable

abbrev leaf : Oid → Value → Variable
leaf o v = record { oid = o; value = v }

-- `Compare(…) < 0`
abbrev pub is_below : ℤ → Bool
is_below r = ltb_ℤ r (pos 0)

-- `sort.Search(n, f)` on [i, j): the fuel is above j - i.
unfoldable pub search_loop : ℕ → (ℕ → Bool) → ℕ → ℕ → ℕ
search_loop zero f i j = i
search_loop (suc fuel) f i j =
    let h = (i + j) / 2 in
    let left = search_loop fuel f i h in
    let right = search_loop fuel f (h + 1) j in if ltb i j then (if f h then left else right) else i

-- The predicate of `search`: `m.vars[i].OID.Compare(oid) >= 0`.
unfoldable pub reaches : Mib → Oid → ℕ → Bool
reaches m oid i = elim (get_elem? m i) [ none ↦ true | some v ↦ leb_ℤ (pos 0) (compare v.oid oid) ]

unfoldable pub search : Mib → Oid → ℕ
search m oid = search_loop (suc (length m)) (reaches m oid) 0 (length m)

-- The variable at an index of the list, if its OID is the one asked for.
if_equal : Oid → Option Variable → Option Variable
if_equal oid none = none
if_equal oid (some v) = if equal v.oid oid then some v else none

unfoldable pub get : Mib → Oid → Option Variable
unfolding if_equal
get m oid = if_equal oid (get_elem? m (search m oid))

-- The loop that passes over variables at or before the OID, on the variables from `i` on.
unfoldable pub skip_to_above : Oid → Mib → Option Variable
skip_to_above oid [] = none
skip_to_above oid (v ∷ m) =
    let rest = skip_to_above oid m in if leb_ℤ (compare v.oid oid) (pos 0) then rest else some v

-- One more than the index where the variable there has the OID.
step_over : Oid → Option Variable → ℕ → ℕ
step_over oid none i = i
step_over oid (some v) i = if equal v.oid oid then i + 1 else i

unfoldable pub get_next : Mib → Oid → Option Variable
unfolding step_over
get_next m oid =
    let i = search m oid in skip_to_above oid (drop (step_over oid (get_elem? m i) i) m)

max0 : ℤ → ℤ
max0 n = if ltb_ℤ n (pos 0) then pos 0 else n

-- `uint32(clampU32(f))` on the integer part of a rate.
clamp_u32 : ℤ → ℕ
clamp_u32 (negsuc n) = 0
clamp_u32 (pos n) = if ltb (2 ^ 32 - 1) n then 2 ^ 32 - 1 else n

bool_int : Bool → ℤ
bool_int true = pos 1
bool_int false = pos 0

time_int : Option ℤ → ℤ
time_int none = pos 0
time_int (some t) = t

instance_leaves : Oid → ℕ → Bytes → InstanceStats → Mib
unfolding max0 clamp_u32 bool_int
instance_leaves base idx name st =
    let entry = child base (2 ∷ 1 ∷ []) in
    leaf (child entry (1 ∷ idx ∷ [])) (integer (pos idx))
    ∷ leaf (child entry (2 ∷ idx ∷ [])) (octet name)
    ∷ leaf (child entry (3 ∷ idx ∷ [])) (octet st.role)
    ∷ leaf (child entry (4 ∷ idx ∷ [])) (integer (bool_int st.up))
    ∷ leaf (child entry (5 ∷ idx ∷ [])) (integer st.port)
    ∷ leaf (child entry (6 ∷ idx ∷ [])) (integer st.connected_clients)
    ∷ leaf (child entry (7 ∷ idx ∷ [])) (counter64 (bits64 (max0 st.rx_bytes)))
    ∷ leaf (child entry (8 ∷ idx ∷ [])) (counter64 (bits64 (max0 st.tx_bytes)))
    ∷ leaf (child entry (9 ∷ idx ∷ [])) (gauge32 (clamp_u32 st.rx_bps))
    ∷ leaf (child entry (10 ∷ idx ∷ [])) (gauge32 (clamp_u32 st.tx_bps))
    ∷ leaf (child entry (11 ∷ idx ∷ [])) (integer st.pid)
    ∷ []

client_leaves : Oid → ℕ → ClientStats → Mib
unfolding max0 clamp_u32 bool_int time_int
client_leaves base idx p =
    let entry = child base (3 ∷ 1 ∷ []) in
    leaf (child entry (1 ∷ idx ∷ [])) (integer (pos idx))
    ∷ leaf (child entry (2 ∷ idx ∷ [])) (octet p.instance_name)
    ∷ leaf (child entry (3 ∷ idx ∷ [])) (octet p.common_name)
    ∷ leaf (child entry (4 ∷ idx ∷ [])) (octet p.name)
    ∷ leaf (child entry (5 ∷ idx ∷ [])) (octet p.real_address)
    ∷ leaf (child entry (6 ∷ idx ∷ [])) (octet p.virtual_address)
    ∷ leaf (child entry (7 ∷ idx ∷ [])) (integer (bool_int p.connected))
    ∷ leaf (child entry (8 ∷ idx ∷ [])) (integer (bool_int p.suspended))
    ∷ leaf (child entry (9 ∷ idx ∷ [])) (integer (time_int p.connected_since))
    ∷ leaf (child entry (10 ∷ idx ∷ [])) (counter64 (bits64 (max0 p.rx_bytes)))
    ∷ leaf (child entry (11 ∷ idx ∷ [])) (counter64 (bits64 (max0 p.tx_bytes)))
    ∷ leaf (child entry (12 ∷ idx ∷ [])) (gauge32 (clamp_u32 p.rx_bps))
    ∷ leaf (child entry (13 ∷ idx ∷ [])) (gauge32 (clamp_u32 p.tx_bps))
    ∷ []

instance_rows : Oid → ℕ → Assoc InstanceStats → Mib
instance_rows base row [] = []
instance_rows base row ((name, st) ∷ m) =
    instance_leaves base (row + 1) name st ++ instance_rows base (row + 1) m

client_rows : Oid → ℕ → Assoc ClientStats → Mib
client_rows base row [] = []
client_rows base row ((k, p) ∷ m) = client_leaves base (row + 1) p ++ client_rows base (row + 1) m

-- Byte-wise string order, as `sort.Strings` compares; a string is an OID for this.
unfoldable pub insert_entry {ℓ} : {V : Type ℓ} → Bytes × V → Assoc V → Assoc V
insert_entry e [] = e ∷ []
insert_entry e (f ∷ m) = if is_below (compare f.0 e.0) then f ∷ insert_entry e m else e ∷ f ∷ m

unfoldable pub sort_entries {ℓ} : {V : Type ℓ} → Assoc V → Assoc V
unfolding insert_entry
sort_entries [] = []
sort_entries (e ∷ m) = insert_entry e (sort_entries m)

-- `sort.Slice` by `Compare(…) < 0`.
unfoldable pub insert_variable : Variable → Mib → Mib
insert_variable v [] = v ∷ []
insert_variable v (w ∷ m) =
    if is_below (compare w.oid v.oid) then w ∷ insert_variable v m else v ∷ w ∷ m

unfoldable pub sort_variables : Mib → Mib
sort_variables [] = []
sort_variables (v ∷ m) = insert_variable v (sort_variables m)

unfoldable pub default_base : Oid → Oid
default_base [] = parse_oid (codes "1.3.6.1.4.1.66666.2")
default_base (n ∷ o) = n ∷ o

default_host : Bytes → Bytes
default_host [] = codes "openvpnd"
default_host (c ∷ s) = c ∷ s

abbrev pub sys : Oid
sys = 1 ∷ 3 ∷ 6 ∷ 1 ∷ 2 ∷ 1 ∷ 1 ∷ []

-- `host` is what `os.Hostname` returned; `uptime` is in hundredths of a second since the start.
unfoldable pub leaves : Oid → Cache → Bytes → ℤ → Mib
unfolding default_host max0 instance_leaves client_leaves instance_rows client_rows
leaves base cache host uptime =
    let ticks = max0 uptime in
    leaf (child sys (1 ∷ 0 ∷ [])) (octet (codes "openvpnd - OpenVPN management daemon"))
      ∷ leaf (child sys (2 ∷ 0 ∷ [])) (oid_value (oid_string base))
      ∷ leaf (child sys (3 ∷ 0 ∷ [])) (time_ticks ticks)
      ∷ leaf (child sys (4 ∷ 0 ∷ [])) (octet [])
      ∷ leaf (child sys (5 ∷ 0 ∷ [])) (octet (default_host host))
      ∷ leaf (child sys (6 ∷ 0 ∷ [])) (octet [])
      ∷ leaf (child sys (7 ∷ 0 ∷ [])) (integer (pos 72))
      ∷ leaf (child base (1 ∷ 1 ∷ 0 ∷ [])) (integer (pos (length cache.instances)))
      ∷ leaf (child base (1 ∷ 2 ∷ 0 ∷ [])) (integer (pos (length cache.clients)))
      ∷ leaf (child base (1 ∷ 3 ∷ 0 ∷ [])) (time_ticks ticks)
      ∷ instance_rows base 0 (sort_entries cache.instances)
    ++ client_rows base 0 (sort_entries cache.clients)

unfoldable pub build_mib : Oid → Cache → Bytes → ℤ → Mib
unfolding default_base
build_mib base cache host uptime = sort_variables (leaves (default_base base) cache host uptime)

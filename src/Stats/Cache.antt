-- ===== src/Stats/Cache.antt =====
-- The statistics cache (internal/stats/cache.go). A rate is the integer part of the float; a time is
-- in seconds, `none` for the zero time.
use openvpnd.Base.{
  ℕ, ◌+◌, Bool, Option, some, List, [], ◌∷◌, ◌++◌, length, if◌then◌else◌, ◌≡◌, ◌≤◌, refl, arith,
}
use openvpnd.Base.Int.{ℤ, pos, ◌+ℤ◌, wrap64}
use openvpnd.Base.Text.{Bytes, bytes_eq}
use openvpnd.Base.Assoc.{Assoc, lookup, put, lookup-put}

pub record InstanceStats : Type 0 where
  pub name : Bytes
  pub role : Bytes
  pub up : Bool
  pub pid : ℤ
  pub port : ℤ
  pub connected_clients : ℤ
  pub rx_bytes : ℤ
  pub tx_bytes : ℤ
  pub rx_bps : ℤ
  pub tx_bps : ℤ
  pub last_error : Bytes
  pub updated_at : ℕ

pub record ClientStats : Type 0 where
  pub instance_name : Bytes
  pub common_name : Bytes
  pub name : Bytes
  pub real_address : Bytes
  pub virtual_address : Bytes
  pub connected : Bool
  pub connected_since : Option ℤ
  pub rx_bytes : ℤ
  pub tx_bytes : ℤ
  pub rx_bps : ℤ
  pub tx_bps : ℤ
  pub suspended : Bool
  pub updated_at : ℕ

pub record Cache : Type 0 where
  pub instances : Assoc InstanceStats
  pub clients : Assoc ClientStats

abbrev pub new_cache : Cache
new_cache = record { instances = []; clients = [] }

unfoldable pub client_key : Bytes → Bytes → Bytes
client_key instance_name cn = instance_name ++ b'/' ∷ cn

unfoldable pub set_instance : Cache → InstanceStats → Cache
set_instance c s = record c { instances = put s.name s c.instances }

unfoldable pub set_client : Cache → ClientStats → Cache
unfolding client_key
set_client c s = record c { clients = put (client_key s.instance_name s.common_name) s c.clients }

unfoldable pub get_instance : Cache → Bytes → Option InstanceStats
get_instance c name = lookup name c.instances

values {ℓ} : {V : Type ℓ} → Assoc V → List V
values [] = []
values ((k, v) ∷ m) = v ∷ values m

unfoldable pub list_instances : Cache → List InstanceStats
unfolding values
list_instances c = values c.instances

unfoldable pub list_clients : Cache → List ClientStats
unfolding values
list_clients c = values c.clients

-- The sums of the two float rates are left out.
pub record Totals : Type 0 where
  pub rx : ℤ
  pub tx : ℤ
  pub up : ℕ
  pub total : ℕ

-- One round of `Snapshot`.
add_stats : Totals → InstanceStats → Totals
add_stats t s = record t {
  rx = wrap64 (t.rx +ℤ s.rx_bytes);
  tx = wrap64 (t.tx +ℤ s.tx_bytes);
  up = if s.up then t.up + 1 else t.up;
}

add_all : Totals → Assoc InstanceStats → Totals
add_all t [] = t
add_all t ((k, s) ∷ m) = add_all (add_stats t s) m

unfoldable pub snapshot : Cache → Totals
unfolding add_stats add_all
snapshot c =
    add_all (record { rx = pos 0; tx = pos 0; up = 0; total = length c.instances }) c.instances

-- An instance is read as it was last set, and setting it changes no other instance.
pub get_instance-set_instance :
    (c : Cache) (s : InstanceStats) (name : Bytes)
    → get_instance (set_instance c s) name
      ≡ (if bytes_eq s.name name then some s else get_instance c name)
unfolding get_instance set_instance
get_instance-set_instance c s name = lookup-put s.name name s c.instances

length-values : (m : Assoc InstanceStats) → length (values m) ≡ length m
unfolding values
length-values [] = refl
length-values ((k, s) ∷ m) = omega (arith, length-values m)

add_all_up :
    (t : Totals) (m : Assoc InstanceStats)
    → ((add_all t m).up ≤ t.up + length m) × ((add_all t m).total ≡ t.total)
unfolding add_all add_stats
add_all_up t [] = ground arith
add_all_up t ((k, s) ∷ m) = ground (arith, add_all_up (add_stats t s) m)

-- The snapshot counts every instance, and never more of them up than there are.
pub snapshot_counts :
    (c : Cache)
    → ((snapshot c).up ≤ (snapshot c).total) × ((snapshot c).total ≡ length (list_instances c))
unfolding snapshot list_instances
snapshot_counts c =
    let start : Totals = record { rx = pos 0; tx = pos 0; up = 0; total = length c.instances } in
    let counted = add_all_up start c.instances in
    let same = length-values c.instances in (omega arith, omega arith)

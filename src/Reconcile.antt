-- ===== src/Reconcile.antt =====
-- The reconciler (internal/reconcile/reconciler.go): what it remembers between passes, the store that it
-- reads and writes, and what the backend and the host answer in a pass. Suspend, Shape, Sampling and Edges
-- are the parts of a pass over an instance, Desired what it asks of the backend, Observed
-- what it sees, Pass is the whole, Run a pass over all instances.
--
-- The answers are parameters. A pass takes place at one instant; log output and metrics are not modelled,
-- and of an event everything but its JSON detail is. Maps are listed in the order of their entries.
pub mod Suspend
pub mod Shape
pub mod Sampling
pub mod Edges
pub mod Desired
pub mod Observed
pub mod Pass
pub mod Run
pub mod Stored
pub mod Settled
pub mod Served
pub mod Quiet
pub mod Keeps
pub mod Limits
pub mod Orphans
use openvpnd.Base.{
  ℕ, ◌/◌, ◌*◌, ◌^◌, Bool, true, false, Option, none, some, List, [], ◌∷◌, ◌++◌, ◌==◌, if◌then◌else◌,
}
use openvpnd.Base.Int.{ℤ, pos, negsuc, ◌-ℤ◌, ltb_ℤ, pos_part, wrap64}
use openvpnd.Base.Text.{Bytes, bytes_eq}
use openvpnd.Base.Assoc.{Assoc, lookup, put}
use openvpnd.Models.{Instance, Client, FeaturePreset}
use openvpnd.Stats.Cache.{Cache}
use openvpnd.Bandwidth.State.{Runner, Enforcer}
use openvpnd.Backend.{LiveInstance, DesiredInstance}

pub record Config : Type 0 where
  pub conf_dir : Bytes
  pub runtime_dir : Bytes
  pub default_binary : Bytes
  pub allow_hooks : Bool
  pub bandwidth_enforcement : Bytes

pub record Sample : Type 0 where
  pub rx : ℤ
  pub tx : ℤ
  pub at : ℤ

pub record Event : Type 0 where
  pub level : Bytes
  pub kind : Bytes
  pub instance_name : Bytes
  pub client_cn : Bytes
  pub message : Bytes

-- `InsertSample`, without its rates.
pub record TrafficSample : Type 0 where
  pub client_id : ℕ
  pub rx_bytes : ℤ
  pub tx_bytes : ℤ

pub record Store : Type 0 where
  pub instances : List Instance
  pub clients : Assoc (List Client)
  pub presets : List FeaturePreset
  pub events : List Event
  pub samples : List TrafficSample

-- The calls of the backend that change something, the last one first.
pub data Call : Type 0 where
  ensure : DesiredInstance → Call
  kill : Bytes → Bytes → Call
  remove : Bytes → Call

-- What the management interface of an instance answers.
pub data Management : Type 0 where
  unreachable : Bytes → Management
  no_status : Bytes → Management
  live : LiveInstance → Management

-- The live processes are listed when the management interface of an instance cannot be reached, when an
-- instance is recorded, and at the end.
pub record Answers : Type 0 where
  pub now : ℤ
  pub resolve_binary : Bytes → Bytes → Option Bytes
  pub clients_listed : Bytes → Bool
  pub can_suspend : ℕ → Bool
  pub read_file : Bytes → Option Bytes
  pub can_ensure : Bytes → Bool
  pub management : Bytes → Management
  pub can_kill : Bytes → Bool
  pub list_sampling : Bytes → Option (List LiveInstance)
  pub list_recording : Bytes → Option (List LiveInstance)
  pub list_live : Option (List LiveInstance)

pub record Reconciler : Type 0 where
  pub store : Store
  pub cache : Cache
  pub bw : Enforcer
  pub prev_sample : Assoc Sample
  pub prev_up : Assoc Bool
  pub prev_peer_conn : Assoc (List Bytes)
  pub calls : List Call

abbrev pub on_store : (Store → Store) → Reconciler → Reconciler
on_store f r = record r { store = f r.store }

abbrev pub add_event : Event → Reconciler → Reconciler
add_event e = on_store (λ s. record s { events = e ∷ s.events })

abbrev pub call : Call → Reconciler → Reconciler
call c r = record r { calls = c ∷ r.calls }

abbrev pub remember : Bytes → Sample → Reconciler → Reconciler
remember key s r = record r { prev_sample = put key s r.prev_sample }

unfoldable pub update_row : ℕ → (Client → Client) → List Client → List Client
update_row id f [] = []
update_row id f (c ∷ cs) = (if c.id == id then f c else c) ∷ update_row id f cs

abbrev pub or_no_rows : Option (List Client) → List Client
or_no_rows none = []
or_no_rows (some cs) = cs

abbrev pub rows : Reconciler → Bytes → List Client
rows r name = or_no_rows (lookup name r.store.clients)

-- A write to the row of a client.
abbrev pub update_client : Bytes → ℕ → (Client → Client) → Reconciler → Reconciler
update_client name id f r =
    on_store (λ s. record s { clients = put name (update_row id f (rows r name)) s.clients }) r

unfoldable pub update_instances : Bytes → (Instance → Instance) → List Instance → List Instance
update_instances name f [] = []
update_instances name f (i ∷ is) =
    (if bytes_eq i.name name then f i else i) ∷ update_instances name f is

abbrev pub update_instance : Bytes → (Instance → Instance) → Reconciler → Reconciler
update_instance name f =
    on_store (λ s. record s { instances = update_instances name f s.instances })

-- The integer part of the bits per second between two counters, 0 when the counter has dropped or no time
-- has passed.
unfoldable pub rate : ℤ → ℤ → ℤ → ℤ
rate raw prev elapsed =
    if ltb_ℤ (pos 0) elapsed
    then pos (pos_part (wrap64 (raw -ℤ prev)) * 8 * 10 ^ 9 / pos_part elapsed)
    else pos 0

-- ===== src/Reconcile/Sampling.antt =====
-- The counters of an instance and of its clients (internal/reconcile/reconciler.go).
use openvpnd.Base.{
  ℕ, ◌/◌, ◌^◌, Bool, true, false, not, ◌&&◌, ◌||◌, Option, none, some, List, [], ◌∷◌, ◌++◌, ◌>>=◌,
  if◌then◌else◌,
}
use openvpnd.Base.Int.{ℤ, pos, ◌-ℤ◌, leb_ℤ, wrap64, pos_part}
use openvpnd.Base.Text.{Bytes, codes, bytes_eq, trim_space}
use openvpnd.Base.Decimal.{atoi}
use openvpnd.Base.Strings.{has_byte, contains}
use openvpnd.Base.Assoc.{lookup}
use openvpnd.Models.{Instance, Client}
use openvpnd.Stats.Lifetime.{accumulate_lifetime}
use openvpnd.Stats.Cache.{ClientStats, client_key, set_client}
use openvpnd.Backend.{LiveClient}
use openvpnd.Reconcile.{
  Answers, Sample, Call, Reconciler, call, remember, update_client, on_store, rate,
}
use openvpnd.Reconcile.Suspend.{mark, suspend_client}

-- Totals and rates in both directions.
pub record Counters : Type 0 where
  pub rx : ℤ
  pub tx : ℤ
  pub rx_bps : ℤ
  pub tx_bps : ℤ

-- The totals go on from the durable ones, by the sample that was remembered under the key.
abbrev pub counters_from : Option Sample → ℤ → ℤ → Sample → Counters
counters_from none last_rx last_tx s = record {
  rx = accumulate_lifetime last_rx s.rx (pos 0) false;
  tx = accumulate_lifetime last_tx s.tx (pos 0) false;
  rx_bps = pos 0;
  tx_bps = pos 0;
}
counters_from (some prev) last_rx last_tx s = record {
  rx = accumulate_lifetime last_rx s.rx prev.rx true;
  tx = accumulate_lifetime last_tx s.tx prev.tx true;
  rx_bps = rate s.rx prev.rx (s.at -ℤ prev.at);
  tx_bps = rate s.tx prev.tx (s.at -ℤ prev.at);
}

abbrev pub still : ℤ → ℤ → Counters
still rx tx = record { rx = rx; tx = tx; rx_bps = pos 0; tx_bps = pos 0 }

-- The last live client of a name, as in a map that is filled in turn.
unfoldable pub by_cn : Bytes → List LiveClient → Option LiveClient
by_cn cn [] = none
by_cn cn (l ∷ ls) = elim (by_cn cn ls) [
  | some m ↦ some m
  | none ↦ if bytes_eq l.common_name cn then some l else none
]

abbrev pub is_some {ℓ} : {A : Type ℓ} → Option A → Bool
is_some none = false
is_some (some a) = true

abbrev sample_of : Answers → LiveClient → Sample
sample_of answers l = record { rx = l.rx_bytes; tx = l.tx_bytes; at = answers.now }

-- A client that is not connected keeps its totals.
abbrev pub client_counters : Answers → Bytes → Client → Option LiveClient → Reconciler → Counters
client_counters answers name c none r = still c.last_rx_bytes c.last_tx_bytes
client_counters answers name c (some l) r =
    counters_from (lookup (client_key name c.common_name) r.prev_sample) c.last_rx_bytes
      c.last_tx_bytes (sample_of answers l)

abbrev pub remember_client : Answers → Bytes → Client → Option LiveClient → Reconciler → Reconciler
remember_client answers name c none r = r
remember_client answers name c (some l) r =
    remember (client_key name c.common_name) (sample_of answers l) r

-- The client with its totals of the moment.
abbrev pub counted : Counters → Client → Client
counted n c = record c { last_rx_bytes = n.rx; last_tx_bytes = n.tx }

abbrev address_of : (LiveClient → Bytes) → Option LiveClient → Bytes
address_of field none = []
address_of field (some l) = field l

abbrev pub seconds : ℤ → ℕ
seconds now = pos_part now / 10 ^ 9

abbrev client_stats : Answers → Bytes → Client → Option LiveClient → Counters → ClientStats
client_stats answers name c found n = record {
  instance_name = name;
  common_name = c.common_name;
  name = c.name;
  real_address = address_of (λ l. l.real_address) found;
  virtual_address = address_of (λ l. l.virtual_address) found;
  connected = is_some found && not c.suspended;
  connected_since = none;
  rx_bytes = wrap64 (n.rx -ℤ c.rx_bytes_offset);
  tx_bytes = wrap64 (n.tx -ℤ c.tx_bytes_offset);
  rx_bps = n.rx_bps;
  tx_bps = n.tx_bps;
  suspended = c.suspended;
  updated_at = seconds answers.now;
}

abbrev kill_suspended : Answers → Bytes → Client → Bool → Reconciler → Reconciler
kill_suspended answers name c online r =
    if online && c.suspended && answers.can_kill name
    then call (Call.kill name c.common_name) r
    else r

abbrev insert_sample : Client → Bool → Counters → Reconciler → Reconciler
insert_sample c online n r =
    if online
    then on_store
        (λ s. record s {
          samples = record { client_id = c.id; rx_bytes = n.rx; tx_bytes = n.tx } ∷ s.samples;
        })
        r
    else r

-- What is done once it is known whether the client is suspended.
abbrev pub record_client :
    Answers → Bytes → Client → Option LiveClient → Counters → Reconciler → Reconciler
record_client answers name c found n r =
    let killed = kill_suspended answers name c (is_some found) r in
    let written = update_client name c.id (counted n) killed in
    let cached = record written {
      cache = set_client written.cache (client_stats answers name c found n);
    } in
    insert_sample c (is_some found) n cached

-- One round of the loop over the clients: the counters, the policy on them, and the records.
unfoldable pub sample_client :
    Answers → Bytes → Option LiveClient → Client → Reconciler → Client × Reconciler
unfolding suspend_client
sample_client answers name found c r =
    let n = client_counters answers name c found r in
    let r1 = remember_client answers name c found r in
    let judged = suspend_client answers name (counted n c) r1 in
    let after = mark (judged.0) c in (after, record_client answers name after found n (judged.1))

unfoldable pub sample_clients :
    Answers → Bytes → List LiveClient → List Client → Reconciler → List Client × Reconciler
unfolding by_cn sample_client
sample_clients answers name live [] r = ([], r)
sample_clients answers name live (c ∷ cs) r =
    let first = sample_client answers name (by_cn c.common_name live) c r in
    let rest = sample_clients answers name live cs (first.1) in (first.0 ∷ rest.0, rest.1)

abbrev is_nought : ℤ → Bool
is_nought n = leb_ℤ n (pos 0) && leb_ℤ (pos 0) n

abbrev is_idle : ℤ × ℤ → Bool
is_idle (rx, tx) = is_nought rx && is_nought tx

abbrev parse_counter : Option Bytes → Option ℤ
parse_counter none = none
parse_counter (some text) = atoi (trim_space text)

-- `readIfaceBytes`: the two files of a device whose name is no path.
unfoldable pub read_iface_bytes : Answers → Bytes → Option (ℤ × ℤ)
read_iface_bytes answers raw =
    let dev = trim_space raw in
    let base = codes "/sys/class/net/" ++ dev ++ codes "/statistics/" in
    if bytes_eq dev [] || has_byte b'/' dev || contains dev (codes "..")
    then none
    else (parse_counter (answers.read_file (base ++ codes "rx_bytes")) >>= λ rx.
        parse_counter (answers.read_file (base ++ codes "tx_bytes")) >>= λ tx. some (rx, tx))

-- The counters of the device, when the instance itself reports none.
unfoldable pub raw_counters : Answers → Instance → ℤ × ℤ → ℤ × ℤ
unfolding read_iface_bytes
raw_counters answers inst raw =
    if is_idle raw && not (bytes_eq (trim_space inst.device) [])
    then (elim (read_iface_bytes answers inst.device) [ none ↦ raw | some counters ↦ counters ])
    else raw

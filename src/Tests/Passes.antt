-- ===== src/Tests/Passes.antt =====
-- A server with a client that has used up its traffic, and a process that no instance stands for.
use openvpnd.Base.{
  ◌≡◌, ◌↔◌, refl, true, false, ◌&&◌, ◌||◌, none, some, [], ◌∷◌, map, All, if◌then◌else◌,
}
use openvpnd.Base.Int.{pos}
use openvpnd.Base.Text.{codes, bytes_eq}
use openvpnd.Base.Sort.{member}
use openvpnd.Models.{Client, Instance, new_client, new_instance}
use openvpnd.Policy.{should_auto_suspend}
use openvpnd.Stats.Cache.{new_cache}
use openvpnd.Bandwidth.Plan.{Mode}
use openvpnd.Bandwidth.State.{Runner, new_enforcer}
use openvpnd.Bandwidth.Trace.{new_enforcer-IsWellFormed}
use openvpnd.Backend.{LiveClient, LiveInstance}
use openvpnd.Reconcile.{Config, Answers, Management, Call, Reconciler, rows}
use openvpnd.Reconcile.Suspend.{suspend_clients}
use openvpnd.Reconcile.Sampling.{is_some, client_counters, counted, sample_client}
use openvpnd.Reconcile.Edges.{peer_edges}
use openvpnd.Reconcile.Run.{run}
use openvpnd.Reconcile.Settled.{
  IsSettled, judged, OthersStay, suspend_events, suspend_clients-judged, sample_client-settles,
}
use openvpnd.Reconcile.Quiet.{SameNames, peer_edges-quiet_iff}
use openvpnd.Reconcile.Stored.{turned, sampled}
use openvpnd.Reconcile.Served.{Served}
use openvpnd.Reconcile.Orphans.{IsGone, run-IsGone}

abbrev runner : Runner
runner = record { look_path = λ host bin. some bin; succeeds = λ host c. true }

abbrev cfg : Config
cfg = record {
  conf_dir = codes "/etc/openvpnd";
  runtime_dir = codes "/run/openvpnd";
  default_binary = codes "default";
  allow_hooks = false;
  bandwidth_enforcement = codes "tc";
}

abbrev phone : LiveClient
phone = record {
  common_name = codes "phone";
  real_address = codes "192.0.2.7:4000";
  virtual_address = codes "10.8.0.2";
  rx_bytes = pos 900;
  tx_bytes = pos 400;
}

abbrev laptop : LiveClient
laptop = record phone { common_name = codes "laptop" }

abbrev old : LiveInstance
old = record {
  name = codes "old";
  pid = pos 7;
  up = true;
  rx_bytes = pos 0;
  tx_bytes = pos 0;
  clients = [];
}

abbrev answers : Answers
answers = record {
  now = pos 5000000000;
  resolve_binary = λ name path. some (codes "/usr/sbin/openvpn");
  clients_listed = λ name. true;
  can_suspend = λ id. true;
  read_file = λ path. none;
  can_ensure = λ name. true;
  management = λ name. Management.unreachable (codes "no socket");
  can_kill = λ name. true;
  list_sampling = λ name. some (old ∷ []);
  list_recording = λ name. none;
  list_live = some (old ∷ []);
}

abbrev limited : Client
limited = record new_client { id = 1; common_name = codes "phone"; traffic_limit_bytes = pos 1000 }

abbrev idle : Reconciler
idle = record {
  store = record { instances = []; clients = []; presets = []; events = []; samples = [] };
  cache = new_cache;
  bw = new_enforcer Mode.tc;
  prev_sample = [];
  prev_up = [];
  prev_peer_conn = [];
  calls = [];
}

run-IsGone_example : IsGone (codes "old") (run runner cfg answers idle)
unfolding member bytes_eq
run-IsGone_example =
    run-IsGone runner cfg answers (codes "old") idle (new_enforcer-IsWellFormed Mode.tc) refl refl

abbrev tablet : Client
tablet = record new_client {
  id = 2;
  common_name = codes "tablet";
  static_ip = codes "10.8.0.9";
  bandwidth_tx_bps = pos 1000000;
}

abbrev office : Instance
office = record new_instance {
  name = codes "srv";
  role = codes "server";
  enabled = true;
  device = codes "tun0";
  server_network = codes "10.8.0.0/24";
}

abbrev serving : Reconciler
serving = record idle {
  store = record idle.store {
    instances = office ∷ [];
    clients = (codes "srv", limited ∷ tablet ∷ []) ∷ [];
  };
}

suspend_clients-judged_example :
    ((suspend_clients answers (codes "srv") (limited ∷ []) serving).0
      ≡ map (judged answers.now) (limited ∷ []))
    × (rows ((suspend_clients answers (codes "srv") (limited ∷ []) serving).1) (codes "srv")
        ≡ map (turned answers.now (limited ∷ [])) (rows serving (codes "srv")))
    × OthersStay
        (codes "srv")
        serving
        ((suspend_clients answers (codes "srv") (limited ∷ []) serving).1)
    × ((suspend_clients answers (codes "srv") (limited ∷ []) serving).1.store.events
        ≡ suspend_events answers.now (codes "srv") (limited ∷ []) serving.store.events)
    × All (IsSettled answers.now) ((suspend_clients answers (codes "srv") (limited ∷ []) serving).0)
suspend_clients-judged_example =
    suspend_clients-judged answers (codes "srv") (limited ∷ []) serving (λ id. refl)

abbrev turn_of_phone : Client × Reconciler
turn_of_phone = sample_client answers (codes "srv") (some phone) limited serving

sample_client-settles_example :
    IsSettled answers.now (
      counted
        (client_counters answers (codes "srv") limited (some phone) serving)
        (turn_of_phone.0))
    × (turn_of_phone.0.suspended ≡ (
        limited.suspended
        || is_some (
            should_auto_suspend
              (counted (client_counters answers (codes "srv") limited (some phone) serving) limited)
              answers.now)))
    × (rows (turn_of_phone.1) (codes "srv")
        ≡ map
            (sampled
              (client_counters answers (codes "srv") limited (some phone) serving)
              (should_auto_suspend
                (counted
                  (client_counters answers (codes "srv") limited (some phone) serving)
                  limited)
                answers.now)
              1)
            (rows serving (codes "srv")))
    × (turn_of_phone.1.calls ≡ (
        if is_some (some phone) && turn_of_phone.0.suspended && answers.can_kill (codes "srv")
        then Call.kill (codes "srv") limited.common_name ∷ serving.calls
        else serving.calls))
sample_client-settles_example =
    sample_client-settles answers (codes "srv") (some phone) limited serving refl

peer_edges-quiet_iff_example :
    ((peer_edges
        (codes "srv")
        (phone ∷ phone ∷ [])
        (peer_edges (codes "srv") (phone ∷ []) idle)).store.events
      ≡ (peer_edges (codes "srv") (phone ∷ []) idle).store.events)
    ↔ SameNames (phone ∷ []) (phone ∷ phone ∷ [])
peer_edges-quiet_iff_example =
    peer_edges-quiet_iff (codes "srv") (phone ∷ []) (phone ∷ phone ∷ []) idle

-- ===== src/Reconcile/Edges.antt =====
-- The events for what has changed since the last pass (internal/reconcile/reconciler.go).
use openvpnd.Base.{Bool, true, false, not, ◌||◌, Option, none, some, List, [], ◌∷◌, if◌then◌else◌}
use openvpnd.Base.Text.{Bytes, codes, bytes_eq}
use openvpnd.Base.Sort.{member}
use openvpnd.Base.Assoc.{lookup, put}
use openvpnd.Backend.{LiveClient}
use openvpnd.Reconcile.{Event, Reconciler, add_event}

-- The names of the live clients, each once.
unfoldable pub connected : List LiveClient → List Bytes
connected [] = []
connected (c ∷ cs) =
    let rest = connected cs in
    if bytes_eq c.common_name [] || member c.common_name rest then rest else c.common_name ∷ rest

abbrev pub peer_event : Bytes → Bytes → Bytes → Bytes → Event
peer_event kind message name cn = record {
  level = codes "info";
  kind = kind;
  instance_name = name;
  client_cn = cn;
  message = message;
}

abbrev pub connect_event : Bytes → Bytes → Event
connect_event = peer_event (codes "peer.connected") (codes "peer connected")

abbrev pub disconnect_event : Bytes → Bytes → Event
disconnect_event = peer_event (codes "peer.disconnected") (codes "peer disconnected")

-- An event for each name of the one list that the other lacks.
unfoldable pub emit_missing : (Bytes → Event) → List Bytes → List Bytes → Reconciler → Reconciler
emit_missing event others [] r = r
emit_missing event others (cn ∷ cns) r =
    emit_missing event others cns (if member cn others then r else add_event (event cn) r)

abbrev pub or_nobody : Option (List Bytes) → List Bytes
or_nobody none = []
or_nobody (some cns) = cns

abbrev pub peers_before : Bytes → Reconciler → List Bytes
peers_before name r = or_nobody (lookup name r.prev_peer_conn)

-- Connects, then disconnects; the names are remembered for the next pass.
unfoldable pub peer_edges : Bytes → List LiveClient → Reconciler → Reconciler
unfolding connected emit_missing
peer_edges name live r =
    let now = connected live in
    let before = peers_before name r in
    let after_connects = emit_missing (connect_event name) before now r in
    let after = emit_missing (disconnect_event name) now before after_connects in
    record after { prev_peer_conn = put name now after.prev_peer_conn }

abbrev pub instance_event : Bytes → Bool → Event
instance_event name true = record {
  level = codes "info";
  kind = codes "instance.up";
  instance_name = name;
  client_cn = [];
  message = codes "instance is up";
}
instance_event name false = record {
  level = codes "warn";
  kind = codes "instance.down";
  instance_name = name;
  client_cn = [];
  message = codes "instance is down";
}

abbrev pub differs : Option Bool → Bool → Bool
differs none up = false
differs (some true) up = not up
differs (some false) up = up

-- An event when the instance has come up or gone down since it was last seen.
unfoldable pub instance_edge : Bytes → Bool → Reconciler → Reconciler
instance_edge name up r =
    let after =
      if differs (lookup name r.prev_up) up then add_event (instance_event name up) r else r in
    record after { prev_up = put name up after.prev_up }

-- ===== src/Snmp/Agent.antt =====
-- The agent's request handling (internal/snmp/agent.go). The MIB of a request is built from what the
-- agent reads then: the cache, the host name and its uptime. The socket loop is not modelled.
pub mod Bounds
pub mod Replies
pub mod Sendable
pub mod Packet
pub mod Readable
use openvpnd.Base.{
  ℕ, zero, suc, ◌+◌, ◌^◌, Bool, true, false, not, ◌&&◌, ◌||◌, Option, none, some, List, [], ◌∷◌,
  ◌++◌, ◌==◌, ltb, length, take, drop, if◌then◌else◌,
}
use openvpnd.Base.Int.{ℤ, pos, negsuc, ltb_ℤ, pos_part}
use openvpnd.Base.Text.{Bytes, codes, bytes_eq}
use openvpnd.Stats.Cache.{Cache}
use openvpnd.Snmp.Tag
use openvpnd.Snmp.Oid.{Oid, parse_oid, is_prefix}
use openvpnd.Snmp.Value.{Value, marker}
use openvpnd.Snmp.Pdu.{VarBind, Pdu, Message, decode_message, encode_message}
use openvpnd.Snmp.Mib.{Variable, Mib, get, get_next, build_mib}

pub record Agent : Type 0 where
  pub listen : Bytes
  pub community : Bytes
  pub base_oid : Oid
  pub cache : Cache
  pub host : Bytes
  pub uptime : ℤ
  pub read_only : Bool

pub record AgentOptions : Type 0 where
  pub listen : Bytes
  pub community : Bytes
  pub enterprise_oid : Bytes
  pub read_only : Bool

or_default : Bytes → Bytes → Bytes
or_default [] d = d
or_default (c ∷ s) d = c ∷ s

-- `NewAgentOpts`; the start time enters as the uptime.
unfoldable pub new_agent : AgentOptions → Cache → Bytes → ℤ → Agent
unfolding or_default
new_agent o cache host uptime = record {
  listen = or_default o.listen (codes "127.0.0.1:1161");
  community = or_default o.community (codes "public");
  base_oid = parse_oid (or_default o.enterprise_oid (codes "1.3.6.1.4.1.66666.1"));
  cache = cache;
  host = host;
  uptime = uptime;
  read_only = o.read_only;
}

abbrev of_variable : Variable → VarBind
of_variable v = record { name = v.oid; value = v.value }

unfoldable pub has_prefix : Mib → Oid → Bool
has_prefix [] oid = false
has_prefix (v ∷ m) oid = is_prefix oid v.oid || has_prefix m oid

answer_get : Mib → Oid → Option Variable → VarBind
answer_get m oid (some v) = of_variable v
answer_get m oid none = record {
  name = oid;
  value = marker (if has_prefix m oid then Tag.no_such_instance else Tag.no_such_object);
}

unfoldable pub do_get : Mib → List VarBind → List VarBind
unfolding answer_get
do_get m [] = []
do_get m (b ∷ bs) = answer_get m b.name (get m b.name) ∷ do_get m bs

answer_next : Oid → Option Variable → VarBind
answer_next oid (some v) = of_variable v
answer_next oid none = record { name = oid; value = marker Tag.end_of_mib_view }

unfoldable pub do_get_next : Mib → List VarBind → List VarBind
unfolding answer_next
do_get_next m [] = []
do_get_next m (b ∷ bs) = answer_next b.name (get_next m b.name) ∷ do_get_next m bs

abbrev names : List VarBind → List Oid
names [] = []
names (b ∷ bs) = b.name ∷ names bs

-- One round over the repeaters: the bindings, the new cursors, and whether all were at the end.
pub record Round : Type 0 where
  pub out : List VarBind
  pub cursors : List Oid
  pub all_end : Bool

repeat_one : Oid → Option Variable → Round → Round
repeat_one cursor (some v) r = record {
  out = of_variable v ∷ r.out;
  cursors = v.oid ∷ r.cursors;
  all_end = false;
}
repeat_one cursor none r = record {
  out = (record { name = cursor; value = marker Tag.end_of_mib_view }) ∷ r.out;
  cursors = cursor ∷ r.cursors;
  all_end = r.all_end;
}

unfoldable pub repeat_round : Mib → List Oid → Round
unfolding repeat_one
repeat_round m [] = record { out = []; cursors = []; all_end = true }
repeat_round m (c ∷ cs) = repeat_one c (get_next m c) (repeat_round m cs)

-- `for r := 0; r < maxRep; r++`, on the rounds left.
unfoldable pub repeat_rounds : ℕ → Mib → List Oid → List VarBind
repeat_rounds zero m cs = []
repeat_rounds (suc n) m cs =
    let r = repeat_round m cs in
    let more = r.out ++ repeat_rounds n m r.cursors in if r.all_end then r.out else more

-- The bounds on the two numbers of a GetBulk request, for `n` bindings.
unfoldable pub clamp_repetitions : ℤ → ℕ
clamp_repetitions (negsuc n) = 0
clamp_repetitions (pos n) = if ltb 100 n then 100 else n

unfoldable pub clamp_non_repeaters : ℤ → ℕ → ℕ
clamp_non_repeaters (negsuc k) n = 0
clamp_non_repeaters (pos k) n = if ltb n k then n else k

repeaters : Mib → ℕ → List VarBind → List VarBind
repeaters m max_rep [] = []
repeaters m max_rep (b ∷ bs) = repeat_rounds max_rep m (names (b ∷ bs))

unfoldable pub do_get_bulk : Mib → Pdu → List VarBind
unfolding repeaters clamp_repetitions clamp_non_repeaters
do_get_bulk m p =
    let non_rep = clamp_non_repeaters p.non_repeaters (length p.bindings) in
    let max_rep = clamp_repetitions p.max_repetitions in
    do_get_next m (take non_rep p.bindings) ++ repeaters m max_rep (drop non_rep p.bindings)

abbrev pub err_not_writable : ℤ
err_not_writable = pos 17

abbrev pub err_gen_err : ℤ
err_gen_err = pos 5

abbrev pub err_too_big : ℤ
err_too_big = pos 1

-- A response with the request's id.
abbrev pub response : ℤ → List VarBind → Pdu
response id bs = record {
  ptype = Tag.get_response;
  request_id = id;
  error_status = pos 0;
  error_index = pos 0;
  non_repeaters = pos 0;
  max_repetitions = pos 0;
  is_bulk = false;
  bindings = bs;
}

refuse_set : Pdu → Pdu
refuse_set p = record (response p.request_id p.bindings) {
  error_status = err_not_writable;
  error_index = if length p.bindings == 0 then pos 0 else pos 1;
}

-- The switch on the request's type.
unfoldable pub answer : Mib → Pdu → Pdu
unfolding refuse_set
answer m p =
    if p.ptype == Tag.get_request
    then response p.request_id (do_get m p.bindings)
    else if p.ptype == Tag.get_next_request
    then response p.request_id (do_get_next m p.bindings)
    else if p.ptype == Tag.get_bulk_request
    then response p.request_id (do_get_bulk m p)
    else if p.ptype == Tag.set_request
    then refuse_set p
    else record (response p.request_id p.bindings) { error_status = err_gen_err }

-- A response above 64000 bytes is replaced by one without bindings.
unfoldable pub cap_response : Message → Bytes
cap_response msg =
    let full = encode_message msg in
    let short = encode_message (record msg {
      pdu = record msg.pdu { error_status = err_too_big; error_index = pos 0; bindings = [] };
    }) in
    if ltb 64000 (length full) then short else full

known_version : ℤ → Bool
known_version (pos n) = (n == 0) || (n == 1)
known_version (negsuc n) = false

unfoldable pub respond : Agent → Message → Option Bytes
unfolding known_version
respond a msg =
    if not (known_version msg.version)
    then none
    else if not (bytes_eq msg.community a.community)
    then none
    else some (
        cap_response (record {
          version = msg.version;
          community = a.community;
          pdu = answer (build_mib a.base_oid a.cache a.host a.uptime) msg.pdu;
        }))

-- `none` is no response.
unfoldable pub handle_packet : Agent → Bytes → Option Bytes
handle_packet a req = elim (decode_message req) [ none ↦ none | some msg ↦ respond a msg ]

-- ===== src/Backend/Status.antt =====
-- internal/ovpnbackend/mgmt.go: the replies of the management interface, and the status that is read from
-- them. `Conn` stands for the socket: the lines that come back for a command, up to the end of the stream.
use openvpnd.Base.{
  ℕ, Bool, true, false, not, ◌&&◌, ◌||◌, Option, none, some, List, [], ◌∷◌, ◌++◌, ◌==◌, length,
  ◌>>=◌, if◌then◌else◌,
}
use openvpnd.Base.Int.{ℤ, pos, ◌+ℤ◌, wrap64, ltb_ℤ}
use openvpnd.Base.Text.{Bytes, codes, bytes_eq, trim_space, to_lower}
use openvpnd.Base.Strings.{starts_with, trim_right, has_byte, join}
use openvpnd.Base.Decimal.{atoi}
use openvpnd.Base.ParseInt.{parse_int}
use openvpnd.Base.Split.{split}
use openvpnd.Backend.{LiveClient, LiveInstance}

-- What stands before and behind the first `b`.
unfoldable pub cut : ℕ → Bytes → Option (Bytes × Bytes)
cut b [] = none
cut b (c ∷ s) =
    let rest = cut b s in if c == b then some ([], s) else (rest >>= λ r. some (c ∷ r.0, r.1))

-- The lines of a reply, and whether it ended without an error.
pub record Reply : Type 0 where
  pub lines : List Bytes
  pub ok : Bool

-- `strings.TrimRight(line, "\r\n")` on a line that ends with its only line feed.
abbrev without_eol : Bytes → Bytes
without_eol line = trim_right b'\r' (trim_right b'\n' line)

unfoldable pub read_reply : List Bytes → Reply
unfolding starts_with trim_right bytes_eq
read_reply [] = record { lines = []; ok = false }
read_reply (l ∷ ls) =
    let line = without_eol l in
    let rest = read_reply ls in
    if bytes_eq line (codes "END")
    then record { lines = []; ok = true }
    else if starts_with (codes "SUCCESS:") line
    then record { lines = line ∷ []; ok = true }
    else if starts_with (codes "ERROR:") line
    then record { lines = []; ok = false }
    else record { lines = line ∷ rest.lines; ok = rest.ok }

abbrev pub Conn : Type 0
Conn = Bytes → Option (List Bytes)

-- `command`; `none` of the connection is a command that cannot be sent.
unfoldable pub command : Conn → Bytes → Reply
unfolding read_reply
command conn cmd = elim (conn cmd) [
  | none ↦ record { lines = []; ok = false }
  | some ls ↦ read_reply ls
]

unfoldable pub new_live : LiveInstance
new_live = record {
  name = [];
  pid = pos 0;
  up = false;
  rx_bytes = pos 0;
  tx_bytes = pos 0;
  clients = [];
}

-- The columns of a client's row, of which there are at least eight.
unfoldable pub columns : List Bytes → Option LiveClient
unfolding parse_int
columns (title ∷ cn ∷ real ∷ virtual ∷ ipv6 ∷ rx ∷ tx ∷ since ∷ more) = some (record {
  common_name = cn;
  real_address = real;
  virtual_address = virtual;
  rx_bytes = parse_int rx;
  tx_bytes = parse_int tx;
})
columns few = none

unfoldable pub client_row : Bytes → Option LiveClient
unfolding starts_with split columns
client_row line =
    if starts_with (codes "CLIENT_LIST,") line then columns (split b',' line) else none

unfoldable pub add_row : LiveInstance → Option LiveClient → LiveInstance
unfolding wrap64 ◌+ℤ◌
add_row live none = live
add_row live (some c) = record live {
  rx_bytes = wrap64 (live.rx_bytes +ℤ c.rx_bytes);
  tx_bytes = wrap64 (live.tx_bytes +ℤ c.tx_bytes);
  clients = live.clients ++ (c ∷ []);
}

unfoldable pub read_rows : LiveInstance → List Bytes → LiveInstance
unfolding add_row client_row
read_rows live [] = live
read_rows live (line ∷ ls) = read_rows (add_row live (client_row line)) ls

unfoldable pub parse_status2 : List Bytes → LiveInstance
unfolding read_rows new_live
parse_status2 lines = read_rows new_live lines

-- The counters of a client's status, each with whether it has been seen.
pub record Statistics : Type 0 where
  pub tun_r : ℤ
  pub tun_w : ℤ
  pub udp_r : ℤ
  pub udp_w : ℤ
  pub have_tun : Bool
  pub have_udp : Bool

abbrev store_counter : Bytes → ℤ → Statistics → Statistics
store_counter key n s =
    if bytes_eq key (codes "tun/tap read bytes")
    then record s { tun_r = n; have_tun = true }
    else if bytes_eq key (codes "tun/tap write bytes")
    then record s { tun_w = n; have_tun = true }
    else if bytes_eq key (codes "tcp/udp read bytes")
    then record s { udp_r = n; have_udp = true }
    else if bytes_eq key (codes "tcp/udp write bytes")
    then record s { udp_w = n; have_udp = true }
    else s

abbrev cut_key : Bytes → Option (Bytes × Bytes)
cut_key line = elim (cut b',' line) [ some kv ↦ some kv | none ↦ cut b':' line ]

abbrev counter_of : Bytes × Bytes → Option (Bytes × ℤ)
counter_of (key, val) = atoi (trim_space val) >>= λ n. some (trim_space (to_lower key), n)

abbrev read_counter : Bytes → Option (Bytes × ℤ)
read_counter line = cut_key (trim_space line) >>= counter_of

abbrev keep_counter : Option (Bytes × ℤ) → Statistics → Statistics
keep_counter none s = s
keep_counter (some (key, n)) s = store_counter key n s

unfoldable pub read_statistics : Statistics → List Bytes → Statistics
unfolding cut atoi trim_space to_lower bytes_eq
read_statistics s [] = s
read_statistics s (line ∷ ls) = read_statistics (keep_counter (read_counter line) s) ls

abbrev no_statistics : Statistics
no_statistics = record {
  tun_r = pos 0;
  tun_w = pos 0;
  udp_r = pos 0;
  udp_w = pos 0;
  have_tun = false;
  have_udp = false;
}

-- The bytes received and sent; of the tunnel device, where reading is sending.
abbrev transferred : Statistics → Option (ℤ × ℤ)
transferred s =
    if s.have_udp
    then some (s.udp_r, s.udp_w)
    else if s.have_tun
    then some (s.tun_w, s.tun_r)
    else none

unfoldable pub parse_client_statistics : List Bytes → Option (ℤ × ℤ)
unfolding read_statistics
parse_client_statistics lines = transferred (read_statistics no_statistics lines)

abbrev is_zero : ℤ → Bool
is_zero z = not (ltb_ℤ z (pos 0)) && not (ltb_ℤ (pos 0) z)

abbrev no_traffic : LiveInstance → Bool
no_traffic live = is_zero live.rx_bytes && is_zero live.tx_bytes

abbrev with_traffic : Option (ℤ × ℤ) → LiveInstance → LiveInstance
with_traffic none live = live
with_traffic (some (rx, tx)) live = record live { rx_bytes = rx; tx_bytes = tx }

abbrev answered : Reply → Bool
answered r = r.ok || not (length r.lines == 0)

-- The plain status of a process without rows of clients.
abbrev from_plain : Conn → LiveInstance → LiveInstance
from_plain conn live =
    let r = command conn (codes "status") in
    if no_traffic live && (length live.clients == 0) && answered r
    then with_traffic (parse_client_statistics r.lines) live
    else live

abbrev from_rows : List Bytes → LiveInstance → LiveInstance
from_rows lines live =
    if no_traffic live then with_traffic (parse_client_statistics lines) live else live

unfoldable pub status : Conn → Option LiveInstance
unfolding command parse_status2 parse_client_statistics
status conn =
    let r = command conn (codes "status 2") in
    let seen = from_rows r.lines (from_plain conn (parse_status2 r.lines)) in
    if answered r then some (record seen { up = true }) else none

unfoldable pub kill_client : Conn → Bytes → Bool
unfolding command
kill_client conn target = (command conn (codes "kill " ++ target)).ok

unfoldable pub signal : Conn → Bytes → Bool
unfolding command
signal conn sig = (command conn (codes "signal " ++ sig)).ok

-- `Raw`: the body, with whether there was no error.
unfoldable pub raw : Conn → Bytes → Bytes × Bool
unfolding command trim_space has_byte join
raw conn text =
    let cmd = trim_space text in
    let r = command conn cmd in
    if bytes_eq cmd [] || has_byte b'\r' cmd || has_byte b'\n' cmd
    then ([], false)
    else (join (b'\n' ∷ []) r.lines, r.ok)

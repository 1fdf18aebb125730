-- ===== src/Backend/Mock.antt =====
-- internal/ovpnbackend/mock.go: the backend in memory. A handle that `Management` returns is the name of its
-- instance with what was live then; `hash` stands for the hash of a configuration, which the reconciler
-- sends with the content.
use openvpnd.Base.{
  ℕ, ◌+◌, Bool, true, false, not, ◌||◌, Option, none, some, List, [], ◌∷◌, ◌++◌, length,
  if◌then◌else◌,
}
use openvpnd.Base.Int.{ℤ, pos, ◌+ℤ◌, wrap64}
use openvpnd.Base.Text.{Bytes, codes, bytes_eq}
use openvpnd.Base.Assoc.{Assoc, lookup, put, remove}
use openvpnd.Base.Decimal.{format_int}
use openvpnd.Base.Strings.{trim_right}
use openvpnd.Backend.{LiveClient, LiveInstance, DesiredInstance}

pub record MockInst : Type 0 where
  pub desired : DesiredInstance
  pub live : LiveInstance

pub record Mock : Type 0 where
  pub instances : Assoc MockInst
  pub bin_ver : Assoc Bytes
  pub kills : List Bytes

unfoldable pub new_mock : Mock
new_mock = record { instances = []; bin_ver = []; kills = [] }

unfoldable pub probe_binary : Mock → Bytes → Bytes
unfolding lookup
probe_binary m path = elim (lookup path m.bin_ver) [
  | some v ↦ v
  | none ↦ codes "OpenVPN 2.6.0 mock"
]

unfoldable pub set_binary_version : Bytes → Bytes → Mock → Mock
unfolding put
set_binary_version path version m = record m { bin_ver = put path version m.bin_ver }

unfoldable pub live_of : Assoc MockInst → List LiveInstance
live_of [] = []
live_of ((name, mi) ∷ is) = let rest = live_of is in if mi.live.up then mi.live ∷ rest else rest

unfoldable pub list_live : Mock → List LiveInstance
unfolding live_of
list_live m = live_of m.instances

abbrev pub down : MockInst → MockInst
down mi = record mi { live = record mi.live { up = false; pid = pos 0 } }

-- A change of the entry of a name, if it has one.
abbrev pub alter_found :
    Bytes → (MockInst → MockInst) → Option MockInst → Assoc MockInst → Assoc MockInst
alter_found name f none is = is
alter_found name f (some mi) is = put name (f mi) is

abbrev pub alter : Bytes → (MockInst → MockInst) → Mock → Mock
alter name f m = record m { instances = alter_found name f (lookup name m.instances) m.instances }

unfoldable pub stop_instance : Bytes → Mock → Mock
unfolding lookup put
stop_instance name m = alter name down m

unfoldable pub remove_instance : Bytes → Mock → Mock
unfolding remove
remove_instance name m = record m { instances = remove name m.instances }

abbrev pub started : DesiredInstance → ℕ → LiveInstance
started d n = record {
  name = d.name;
  pid = pos (1000 + n);
  up = true;
  rx_bytes = pos 0;
  tx_bytes = pos 0;
  clients = [];
}

-- A process that is to be started again.
abbrev pub is_stale : (Bytes → Bytes) → DesiredInstance → MockInst → Bool
is_stale hash d mi =
    not mi.live.up
    || not (bytes_eq (hash mi.desired.conf_content) (hash d.conf_content))
    || not (bytes_eq mi.desired.binary_path d.binary_path)

-- The entry of an enabled instance, over the one that it had; `n` counts the entries.
unfoldable pub ensured : (Bytes → Bytes) → DesiredInstance → ℕ → Option MockInst → MockInst
unfolding bytes_eq
ensured hash d n none = record { desired = d; live = started d (n + 1) }
ensured hash d n (some mi) = record {
  desired = d;
  live = if is_stale hash d mi then started d n else mi.live;
}

unfoldable pub ensure_instance : (Bytes → Bytes) → DesiredInstance → Mock → Mock
unfolding stop_instance ensured lookup put
ensure_instance hash d m =
    let mi = ensured hash d (length m.instances) (lookup d.name m.instances) in
    if d.enabled then record m { instances = put d.name mi m.instances } else stop_instance d.name m

unfoldable pub connect : Option MockInst → Option LiveInstance
connect none = none
connect (some mi) = if mi.live.up then some mi.live else none

-- The handle of a running instance.
unfoldable pub management : Bytes → Mock → Option LiveInstance
unfolding lookup connect
management name m = connect (lookup name m.instances)

-- `Status` of a handle: what is live now, or what was when the entry is gone.
unfoldable pub status : Mock → Bytes → LiveInstance → LiveInstance
unfolding lookup
status m name live = elim (lookup name m.instances) [ some mi ↦ mi.live | none ↦ live ]

abbrev pub is_target : Bytes → LiveClient → Bool
is_target target c = bytes_eq c.common_name target || bytes_eq c.real_address target

unfoldable pub without : Bytes → List LiveClient → List LiveClient
unfolding bytes_eq
without target [] = []
without target (c ∷ cs) =
    let rest = without target cs in if is_target target c then rest else c ∷ rest

abbrev pub set_live_clients : List LiveClient → MockInst → MockInst
set_live_clients cs mi = record mi { live = record mi.live { clients = cs } }

unfoldable pub kill_client : Bytes → Bytes → Mock → Mock
unfolding without lookup put
kill_client name target m =
    alter name (λ mi. set_live_clients (without target mi.live.clients) mi)
      (record m { kills = m.kills ++ ((name ++ codes "/" ++ target) ∷ []) })

-- The sum of a counter, in int64.
unfoldable pub sum_from : (LiveClient → ℤ) → ℤ → List LiveClient → ℤ
unfolding wrap64 ◌+ℤ◌
sum_from f n [] = n
sum_from f n (c ∷ cs) = sum_from f (wrap64 (n +ℤ f c)) cs

abbrev with_clients : List LiveClient → LiveInstance → LiveInstance
with_clients cs live = record live {
  clients = cs;
  rx_bytes = sum_from (λ c. c.rx_bytes) (pos 0) cs;
  tx_bytes = sum_from (λ c. c.tx_bytes) (pos 0) cs;
}

unfoldable pub set_clients : Bytes → List LiveClient → Mock → Mock
unfolding sum_from lookup put
set_clients name cs m = alter name (λ mi. record mi { live = with_clients cs mi.live }) m

-- The row of a client in the body of `status`; `since` prints the time of its connection.
unfoldable pub status_row : (LiveClient → Bytes) → LiveClient → Bytes
unfolding format_int
status_row since c =
    codes "CLIENT_LIST,"
    ++ (c.common_name
        ++ b','
          ∷ (c.real_address
              ++ b','
                ∷ (c.virtual_address
                    ++ b','
                      ∷ b','
                      ∷ (format_int c.rx_bytes
                          ++ b',' ∷ (format_int c.tx_bytes ++ b',' ∷ since c)))))

unfoldable pub status_rows : (LiveClient → Bytes) → List LiveClient → Bytes
unfolding status_row
status_rows since [] = codes "GLOBAL_STATS,Max bcast/mcast queue length,0" ++ (b'\n' ∷ [])
status_rows since (c ∷ cs) = status_row since c ++ b'\n' ∷ status_rows since cs

unfoldable pub title : Bytes
title = codes "TITLE,OpenVPN Mock Status"

unfoldable pub header_row : Bytes
header_row =
    codes
      "HEADER,CLIENT_LIST,Common Name,Real Address,Virtual Address,Virtual IPv6 Address,Bytes Received,Bytes Sent,Connected Since"

-- `Raw` of the command `status`.
unfoldable pub raw_status : (LiveClient → Bytes) → LiveInstance → Bytes
unfolding status_rows title header_row trim_right
raw_status since live =
    trim_right b'\n' (title ++ b'\n' ∷ (header_row ++ b'\n' ∷ status_rows since live.clients))

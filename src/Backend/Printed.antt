-- ===== src/Backend/Printed.antt =====
-- The status that the backend in memory prints (internal/ovpnbackend/mock.go) against the reader of the
-- management interface (internal/ovpnbackend/mgmt.go).
use openvpnd.Base.{
  ℕ, suc, ◌≡◌, ◌≢◌, refl, sym, ap, ◌∙◌, none, some, List, [], ◌∷◌, ◌++◌, append_assoc, append-nil,
  All, All-append, arith,
}
use mathlib.Core.List.{reverse, reverse-append, reverse-reverse}
use openvpnd.Base.Int.{ℤ, pos, negsuc, IsInt64}
use openvpnd.Base.Text.{Bytes, codes}
use openvpnd.Base.Strings.{trim_right, trim_left, starts_with}
use openvpnd.Base.Decimal.{format_int, format_uint, IsDigit, All-format_uint}
use openvpnd.Base.ParseInt.{parse_int-format_int}
use openvpnd.Base.Split.{split, Lacks, split_last, split-append}
use openvpnd.Backend.{LiveClient, LiveInstance}
use openvpnd.Backend.Status.{client_row, columns, add_row, read_rows, parse_status2, new_live}
use openvpnd.Backend.Mock.{sum_from, status_row, status_rows, title, header_row, raw_status}

-- A byte that neither ends a column nor a line.
abbrev pub IsPlain : ℕ → Type 0
IsPlain c = (c ≢ b',') × (c ≢ b'\n')

-- A client whose columns can be told apart.
abbrev pub IsPrintable : (LiveClient → Bytes) → LiveClient → Type 0
IsPrintable since c =
    All IsPlain c.common_name
    × All IsPlain c.real_address
    × All IsPlain c.virtual_address
    × All IsPlain (since c)
    × IsInt64 c.rx_bytes
    × IsInt64 c.tx_bytes

Lacks-comma : (s : Bytes) → All IsPlain s → Lacks b',' s
Lacks-comma [] h = tt
Lacks-comma (c ∷ s) h = (h.0.0, Lacks-comma s h.1)

Lacks-eol : (s : Bytes) → All IsPlain s → Lacks b'\n' s
Lacks-eol [] h = tt
Lacks-eol (c ∷ s) h = (h.0.1, Lacks-eol s h.1)

digits-IsPlain : (s : Bytes) → All IsDigit s → All IsPlain s
digits-IsPlain [] h = tt
digits-IsPlain (c ∷ s) h =
    ((λ e. omega (arith, h.0.1, e), λ e. omega (arith, h.0.0, e)), digits-IsPlain s h.1)

format_int-IsPlain : (z : ℤ) → All IsPlain (format_int z)
unfolding format_int
format_int-IsPlain (pos n) = digits-IsPlain (format_uint n) (All-format_uint n)
format_int-IsPlain (negsuc n) = (
  (λ e. omega (arith, e), λ e. omega (arith, e)),
  digits-IsPlain (format_uint (suc n)) (All-format_uint (suc n)),
)

split_column :
    (p rest : Bytes) → All IsPlain p → split b',' (p ++ b',' ∷ rest) ≡ p ∷ split b',' rest
split_column p rest h = split-append b',' p rest (Lacks-comma p h)

column-Lacks : (p rest : Bytes) → All IsPlain p → Lacks b'\n' rest → Lacks b'\n' (p ++ b',' ∷ rest)
column-Lacks p rest h k =
    All-append (λ c. c ≢ b'\n') p (b',' ∷ rest) (Lacks-eol p h) (λ e. omega (arith, e), k)

status_row-Lacks :
    (since : LiveClient → Bytes) (c : LiveClient)
    → IsPrintable since c
    → Lacks b'\n' (status_row since c)
unfolding status_row
status_row-Lacks since c (cn, real, virtual, at, rx, tx) =
    let last = Lacks-eol (since c) at in
    let sent = column-Lacks (format_int c.tx_bytes) _ (format_int-IsPlain c.tx_bytes) last in
    let received = column-Lacks (format_int c.rx_bytes) _ (format_int-IsPlain c.rx_bytes) sent in
    let ipv6 = column-Lacks [] _ tt received in
    let names =
      column-Lacks c.common_name _ cn
        (column-Lacks c.real_address _ real (column-Lacks c.virtual_address _ virtual ipv6)) in
    All-append (λ c. c ≢ b'\n') (codes "CLIENT_LIST,") _ (ground arith) names

-- The columns of a printed row.
status_row-split :
    (since : LiveClient → Bytes) (c : LiveClient)
    → IsPrintable since c
    → split b',' (status_row since c)
      ≡ codes "CLIENT_LIST"
        ∷ c.common_name
        ∷ c.real_address
        ∷ c.virtual_address
        ∷ []
        ∷ format_int c.rx_bytes
        ∷ format_int c.tx_bytes
        ∷ since c
        ∷ []
unfolding status_row
status_row-split since c (cn, real, virtual, at, rx, tx) =
    rw
      (
        split_column (codes "CLIENT_LIST")
            (c.common_name
              ++ b','
                ∷ (c.real_address
                    ++ b','
                      ∷ (c.virtual_address
                          ++ b','
                            ∷ b','
                            ∷ (format_int c.rx_bytes
                                ++ b',' ∷ (format_int c.tx_bytes ++ b',' ∷ since c)))))
            (ground arith),
        split_column c.common_name _ cn,
        split_column c.real_address _ real,
        split_column c.virtual_address _ virtual,
        split_column [] _ tt,
        split_column (format_int c.rx_bytes) _ (format_int-IsPlain c.rx_bytes),
        split_column (format_int c.tx_bytes) _ (format_int-IsPlain c.tx_bytes),
        split_last b',' (since c) (Lacks-comma (since c) at),
      )
      refl

client_row-status_row :
    (since : LiveClient → Bytes) (c : LiveClient)
    → IsPrintable since c
    → client_row (status_row since c) ≡ some c
client_row-status_row since c (cn, real, virtual, at, rx, tx) =
    let row : client_row (status_row since c) ≡ columns (split b',' (status_row since c)) =
      unfold client_row starts_with status_row in refl in
    row
    ∙ ap columns (status_row-split since c (cn, real, virtual, at, rx, tx))
    ∙ (unfold columns in
        rw (parse_int-format_int c.rx_bytes rx, parse_int-format_int c.tx_bytes tx) refl)

-- A status in which the rows of some clients stand behind others.
abbrev pub with_rows : LiveInstance → List LiveClient → LiveInstance
with_rows live cs = record live {
  rx_bytes = sum_from (λ c. c.rx_bytes) live.rx_bytes cs;
  tx_bytes = sum_from (λ c. c.tx_bytes) live.tx_bytes cs;
  clients = live.clients ++ cs;
}

-- The rows, and the statistics behind them, without the last line feed.
trimmed_rows : (LiveClient → Bytes) → List LiveClient → Bytes
trimmed_rows since [] = codes "GLOBAL_STATS,Max bcast/mcast queue length,"
trimmed_rows since (c ∷ cs) = status_row since c ++ b'\n' ∷ trimmed_rows since cs

status_rows-trimmed :
    (since : LiveClient → Bytes) (cs : List LiveClient)
    → status_rows since cs ≡ trimmed_rows since cs ++ (b'0' ∷ b'\n' ∷ [])
unfolding status_rows trimmed_rows
status_rows-trimmed since [] = refl
status_rows-trimmed since (c ∷ cs) =
    ap (λ r. status_row since c ++ b'\n' ∷ r) (status_rows-trimmed since cs)
    ∙ sym (append_assoc (status_row since c) (b'\n' ∷ trimmed_rows since cs) (b'0' ∷ b'\n' ∷ []))

trim_left_end : (b c : ℕ) (s : Bytes) → c ≢ b → trim_left b (b ∷ c ∷ s) ≡ c ∷ s
unfolding trim_left
trim_left_end b c s h = ground arith

trim_right_end : (b c : ℕ) (s : Bytes) → c ≢ b → trim_right b (s ++ (c ∷ b ∷ [])) ≡ s ++ (c ∷ [])
unfolding trim_right
trim_right_end b c s h =
    ap (λ r. reverse (trim_left b r)) (reverse-append s (c ∷ b ∷ []))
    ∙ ap (λ r. reverse r) (trim_left_end b c (reverse s) h)
    ∙ reverse-append (c ∷ []) (reverse s)
    ∙ ap (λ r. r ++ (c ∷ [])) (reverse-reverse s)

read_rows-trimmed :
    (since : LiveClient → Bytes) (live : LiveInstance) (cs : List LiveClient)
    → All (IsPrintable since) cs
    → read_rows live (split b'\n' (trimmed_rows since cs ++ (b'0' ∷ []))) ≡ with_rows live cs
unfolding read_rows trimmed_rows sum_from add_row
read_rows-trimmed since live [] h = rw (append-nil live.clients) refl
read_rows-trimmed since live (c ∷ cs) h =
    let rest = trimmed_rows since cs ++ (b'0' ∷ []) in
    let lines =
      ap (split b'\n')
        (append_assoc (status_row since c) (b'\n' ∷ trimmed_rows since cs) (b'0' ∷ []))
      ∙ split-append b'\n' (status_row since c) rest (status_row-Lacks since c h.0) in
    ap (read_rows live) lines
    ∙ ap (λ o. read_rows (add_row live o) (split b'\n' rest)) (client_row-status_row since c h.0)
    ∙ read_rows-trimmed since (add_row live (some c)) cs h.1
    ∙ rw (append_assoc live.clients (c ∷ []) cs) refl

raw_status-trimmed :
    (since : LiveClient → Bytes) (live : LiveInstance)
    → raw_status since live
      ≡ title ++ b'\n' ∷ (header_row ++ b'\n' ∷ (trimmed_rows since live.clients ++ (b'0' ∷ [])))
unfolding raw_status title header_row
raw_status-trimmed since live =
    ap (λ r. trim_right b'\n' (title ++ b'\n' ∷ (header_row ++ b'\n' ∷ r)))
      (status_rows-trimmed since live.clients)
    ∙ trim_right_end b'\n' b'0'
        (title ++ b'\n' ∷ (header_row ++ b'\n' ∷ trimmed_rows since live.clients))
        (λ e. omega (arith, e))

split_header :
    (rest : Bytes)
    → split b'\n' (title ++ b'\n' ∷ (header_row ++ b'\n' ∷ rest))
      ≡ title ∷ header_row ∷ split b'\n' rest
unfolding title header_row split
split_header rest = refl

no_row : (client_row title ≡ none) × (client_row header_row ≡ none)
unfolding client_row title header_row starts_with
no_row = (refl, refl)

-- The status that the backend in memory prints is read back: the clients of the instance in their order,
-- with their addresses and counters, and the sums of the counters in int64, when the counters are int64 and
-- neither a name, nor an address, nor the print of a time has a comma or a line feed.
pub parse_status2-raw_status :
    (since : LiveClient → Bytes) (live : LiveInstance)
    → All (IsPrintable since) live.clients
    → parse_status2 (split b'\n' (raw_status since live)) ≡ with_rows new_live live.clients
unfolding parse_status2 read_rows add_row
parse_status2-raw_status since live h =
    let rest = trimmed_rows since live.clients ++ (b'0' ∷ []) in
    let headers =
      ap (λ o. read_rows (add_row (add_row new_live o) (client_row header_row)) (split b'\n' rest))
        (no_row.0)
      ∙ ap (λ o. read_rows (add_row new_live o) (split b'\n' rest)) (no_row.1) in
    ap (λ s. read_rows new_live (split b'\n' s)) (raw_status-trimmed since live)
    ∙ ap (read_rows new_live) (split_header rest)
    ∙ headers
    ∙ read_rows-trimmed since new_live live.clients h

-- ===== src/Tests/Backends.antt =====
-- A backend in memory with one process and its clients.
use openvpnd.Base.{◌≡◌, true, [], ◌∷◌, arith}
use openvpnd.Base.Int.{pos}
use openvpnd.Base.Text.{Bytes, codes}
use openvpnd.Base.Split.{split}
use openvpnd.Backend.{LiveClient, LiveInstance, DesiredInstance}
use openvpnd.Backend.Status.{new_live, parse_status2}
use openvpnd.Backend.Mock.{new_mock, ensure_instance, raw_status}
use openvpnd.Backend.Ensured.{Ensures, ensure_instance-Ensures}
use openvpnd.Backend.Printed.{with_rows, parse_status2-raw_status}

abbrev office : DesiredInstance
office = record {
  name = codes "office";
  role = codes "server";
  enabled = true;
  binary_path = codes "/usr/sbin/openvpn";
  conf_path = codes "/etc/openvpn/office.conf";
  conf_content = codes "dev tun";
  ccd_dir = [];
  ccd_files = [];
  env = [];
  allow_hooks = true;
}

abbrev same : Bytes → Bytes
same content = content

ensure_instance-Ensures_example :
    Ensures same office
      (ensure_instance same office new_mock)
      (ensure_instance same office (ensure_instance same office new_mock))
ensure_instance-Ensures_example =
    ensure_instance-Ensures same office (ensure_instance same office new_mock)

abbrev tablet : LiveClient
tablet = record {
  common_name = codes "tab";
  real_address = codes "1.2.3.4:9";
  virtual_address = codes "10.8.0.2";
  rx_bytes = pos 1200;
  tx_bytes = pos 34;
}

abbrev connected_at : LiveClient → Bytes
connected_at c = codes "2026-01-02T03:04:05Z"

abbrev running : LiveInstance
running = record {
  name = codes "office";
  pid = pos 1001;
  up = true;
  rx_bytes = pos 0;
  tx_bytes = pos 0;
  clients = tablet ∷ [];
}

parse_status2-raw_status_example :
    parse_status2 (split b'\n' (raw_status connected_at running)) ≡ with_rows new_live (tablet ∷ [])
parse_status2-raw_status_example = parse_status2-raw_status connected_at running (ground arith)

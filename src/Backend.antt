-- ===== src/Backend.antt =====
-- The data of the backend (internal/ovpnbackend/backend.go): what a process is to be, and what is seen of it.
-- Status reads what its management interface says, Mock is the backend in memory. The hash of a
-- configuration, the times and the paths that only the host backend uses are left out.
pub mod Status
pub mod Mock
pub mod Ensured
pub mod Printed
use openvpnd.Base.{Bool, List}
use openvpnd.Base.Int.{ℤ}
use openvpnd.Base.Text.{Bytes}
use openvpnd.Base.Assoc.{Assoc}

pub record LiveClient : Type 0 where
  pub common_name : Bytes
  pub real_address : Bytes
  pub virtual_address : Bytes
  pub rx_bytes : ℤ
  pub tx_bytes : ℤ

pub record LiveInstance : Type 0 where
  pub name : Bytes
  pub pid : ℤ
  pub up : Bool
  pub rx_bytes : ℤ
  pub tx_bytes : ℤ
  pub clients : List LiveClient

pub record DesiredInstance : Type 0 where
  pub name : Bytes
  pub role : Bytes
  pub enabled : Bool
  pub binary_path : Bytes
  pub conf_path : Bytes
  pub conf_content : Bytes
  pub ccd_dir : Bytes
  pub ccd_files : Assoc Bytes
  pub env : List Bytes
  pub allow_hooks : Bool

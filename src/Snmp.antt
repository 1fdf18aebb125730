-- ===== src/Snmp.antt =====
-- The SNMPv2c agent (internal/snmp).
pub mod Oid
pub mod Tag
pub mod Ber
pub mod Value
pub mod Pdu
pub mod Mib
pub mod Agent

-- ===== src/Snmp/Tag.antt =====
-- The tags of SNMPv2c (internal/snmp/ber.go), PDU types among them.
use openvpnd.Base.{ℕ}

abbrev pub integer : ℕ
integer = 0x02

abbrev pub octet_string : ℕ
octet_string = 0x04

abbrev pub null : ℕ
null = 0x05

abbrev pub oid : ℕ
oid = 0x06

abbrev pub sequence : ℕ
sequence = 0x30

abbrev pub ip_address : ℕ
ip_address = 0x40

abbrev pub counter32 : ℕ
counter32 = 0x41

abbrev pub gauge32 : ℕ
gauge32 = 0x42

abbrev pub time_ticks : ℕ
time_ticks = 0x43

abbrev pub counter64 : ℕ
counter64 = 0x46

abbrev pub no_such_object : ℕ
no_such_object = 0x80

abbrev pub no_such_instance : ℕ
no_such_instance = 0x81

abbrev pub end_of_mib_view : ℕ
end_of_mib_view = 0x82

abbrev pub get_request : ℕ
get_request = 0xA0

abbrev pub get_next_request : ℕ
get_next_request = 0xA1

abbrev pub get_response : ℕ
get_response = 0xA2

abbrev pub set_request : ℕ
set_request = 0xA3

abbrev pub get_bulk_request : ℕ
get_bulk_request = 0xA5

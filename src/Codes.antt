-- ===== src/Codes.antt =====
-- The numbers of the SOCKS protocol that server/include/socks5.h, hello.h and request.h name.
use Prim.Native.Nat.{ℕ}

abbrev pub socks5_version : ℕ
socks5_version = 0x05

abbrev pub username_password : ℕ
username_password = 0x02

abbrev pub no_acceptable_methods : ℕ
no_acceptable_methods = 0xFF

abbrev pub auth_version_byte : ℕ
auth_version_byte = 0x01

abbrev pub auth_status_success : ℕ
auth_status_success = 0x00

abbrev pub auth_status_failure : ℕ
auth_status_failure = 0x01

abbrev pub socks5_cmd_connect : ℕ
socks5_cmd_connect = 0x01

abbrev pub socks5_atyp_ipv4 : ℕ
socks5_atyp_ipv4 = 0x01

abbrev pub socks5_atyp_domainname : ℕ
socks5_atyp_domainname = 0x03

abbrev pub socks5_atyp_ipv6 : ℕ
socks5_atyp_ipv6 = 0x04

-- The SOCKS5_REPLY_ codes.
abbrev pub reply_succeeded : ℕ
reply_succeeded = 0x00

abbrev pub reply_general_failure : ℕ
reply_general_failure = 0x01

abbrev pub reply_network_unreachable : ℕ
reply_network_unreachable = 0x03

abbrev pub reply_host_unreachable : ℕ
reply_host_unreachable = 0x04

abbrev pub reply_connection_refused : ℕ
reply_connection_refused = 0x05

abbrev pub reply_command_not_supported : ℕ
reply_command_not_supported = 0x07

abbrev pub reply_address_type_not_supported : ℕ
reply_address_type_not_supported = 0x08

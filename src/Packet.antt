-- ===== src/Packet.antt =====
-- nginx/_include/ngx_comm.h: the header in front of each packet, COMM_PKG_HEADER, and how the
-- code reads and writes its fields. The struct is packed (`#pragma pack (1)`): pkgLen stands at
-- offset 0, msgCode at 2 and crc32 at 4. Loads and stores are those of a little-endian host.
use cnginx.Common.{ℕ, ◌+◌, ◌*◌, ◌/◌, ◌%◌, [], ◌∷◌, get_or}
use cnginx.Common.Memory.{Bytes}

-- sizeof(COMM_PKG_HEADER), the member m_iLenPkgHeader
abbrev pub header_size : ℕ
header_size = 8

-- _PKG_MAX_LENGTH
abbrev pub pkg_max_length : ℕ
pkg_max_length = 30000

-- _DATA_BUFSIZE_
abbrev pub data_bufsize : ℕ
data_bufsize = 20

-- STRUC_MSG_HEADER with the packet behind it, as one block from `new char[]`: the connection's
-- address, its sequence number, and the bytes of the packet.
pub record Message : Type 0 where
  pub conn : ℕ
  pub cur_sequence : ℕ
  pub pkg : Bytes

abbrev pub load16 : ℕ → Bytes → ℕ
load16 o mem = get_or mem o 0 + 256 * get_or mem (o + 1) 0

abbrev pub load32 : ℕ → Bytes → ℕ
load32 o mem = load16 o mem + 65536 * load16 (o + 2) mem

-- ntohs and htons: the two bytes change places.
abbrev pub ntohs : ℕ → ℕ
ntohs x = x % 256 * 256 + x / 256 % 256

-- ntohl and htonl
abbrev pub ntohl : ℕ → ℕ
ntohl x = ntohs (x % 65536) * 65536 + ntohs (x / 65536)

abbrev pub store16 : ℕ → Bytes
store16 x = x % 256 ∷ x / 256 % 256 ∷ []

abbrev pub store32 : ℕ → Bytes
store32 x = x % 256 ∷ x / 256 % 256 ∷ x / 65536 % 256 ∷ x / 16777216 % 256 ∷ []

-- ntohs(pPkgHeader->pkgLen)
unfoldable pub pkg_len : Bytes → ℕ
pkg_len mem = ntohs (load16 0 mem)

-- ntohs(pPkgHeader->msgCode)
unfoldable pub msg_code : Bytes → ℕ
msg_code mem = ntohs (load16 2 mem)

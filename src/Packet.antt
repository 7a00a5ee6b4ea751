-- ===== src/Packet.antt =====
-- 01_Server/Src/02_ServerEngine/{Include,Source}/EngineCommon/Packet: the header of a packet as it
-- comes from a RecvBuffer, and the parsers of bodies. The platform is little-endian.
pub mod Header
mod Tests
use mathlib.Core.Option
use tux_base_mmo.Common.{
  ℕ, ◌+◌, ◌*◌, Bool, true, false, ◌&&◌, Option, none, some, List, ltb, leb, ◌==◌, is_some,
  if◌then◌else◌, ◌≡◌,
}
use tux_base_mmo.Verify.{Outcome, returns, undefined, ◌>>=◌}
use tux_base_mmo.RecvBuffer.{RecvBuffer, get_readable_size, get_readable_span}

-- `PacketHeader`, packed
pub record PacketHeader : Type 0 where
  pub size : ℕ
  pub id : ℕ

-- `PacketHeader::kHeaderSize`
abbrev pub k_header_size : ℕ
k_header_size = 2 + 2

-- `PacketHeader::kMaxPacketSize`
abbrev pub k_max_packet_size : ℕ
k_max_packet_size = 1024 * 8

-- `PacketHeader packetHeader;`
abbrev pub no_header : PacketHeader
no_header = record { size = 0; id = 0 }

-- `PacketHeader::IsValid`
unfoldable pub is_valid : PacketHeader → Bool
is_valid h = ltb 0 h.id && ltb 0 h.size && leb k_header_size h.size && ltb h.size k_max_packet_size

-- `std::memcpy(&packetHeader, ptr, PacketHeader::kHeaderSize)`
abbrev pub copy_header : (ℕ → ℕ) → ℕ → PacketHeader
copy_header buffer p = record {
  size = buffer p + 256 * buffer (p + 1);
  id = buffer (p + 2) + 256 * buffer (p + 3);
}

-- `IPacketParser::ParsePacketHeader`
unfoldable pub parse_packet_header : RecvBuffer → PacketHeader
parse_packet_header b =
    let header = copy_header b.buffer (get_readable_span b).offset in
    if ltb (get_readable_size b) k_header_size
    then no_header
    else if ltb (get_readable_size b) header.size
    then header
    else header

-- `Packet`, whose pointer to a body may be null
pub record Packet {ℓ} (Body : Type ℓ) : Type ℓ where
  pub header : PacketHeader
  pub body : Option Body

-- `IPacketParser`
pub record IPacketParser {ℓ} (Body : Type ℓ) : Type ℓ where
  pub parse_packet_body : List ℕ → Option Body

-- `PacketParser<TPacketType>`; what ParseFromArray makes of some bytes and the conversion of a message to
-- `PacketBody` are the class's.
abbrev pub packet_parser {ℓ κ} :
    {Message : Type ℓ} {Body : Type κ}
    → (parse_from_array : List ℕ → Option Message) → (to_body : Message → Body) → IPacketParser Body
packet_parser parse_from_array to_body = record {
  parse_packet_body = λ bytes. Option.map to_body (parse_from_array bytes);
}

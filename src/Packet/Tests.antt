-- ===== src/Packet/Tests.antt =====
-- The parser on small inputs.
use tux_base_mmo.Common.{◌+◌, ◌≤◌, ◌≡◌, refl, true, [], ◌∷◌, arith, get_or}
use tux_base_mmo.RecvBuffer.{RecvBuffer, get_readable_size, get_writable_size, compact}
use tux_base_mmo.RecvBuffer.Invariant.{IsValid, contents}
use tux_base_mmo.Packet.{PacketHeader, is_valid, parse_packet_header}
use tux_base_mmo.Packet.Header.{
  parse_packet_header-header_bytes, parse_packet_header-contents, header_of, packet_has_room,
}

-- Five bytes have arrived of a packet of 300 bytes with the identifier 7.
abbrev part : RecvBuffer
part = record {
  buffer = λ i. get_or (44 ∷ 1 ∷ 7 ∷ 0 ∷ 99 ∷ []) i 0;
  capacity = 16384;
  min_writable_size = 8192;
  read_pos = 0;
  write_pos = 5;
}

part-IsValid : IsValid part
part-IsValid = ground arith

abbrev header_300 : PacketHeader
header_300 = record { size = 300; id = 7 }

part_header : parse_packet_header part ≡ header_300
part_header = parse_packet_header-header_bytes header_300 (99 ∷ []) part-IsValid refl

-- Three of the bytes are left.
abbrev short_part : RecvBuffer
short_part = record part { read_pos = 2 }

short_part-IsValid : IsValid short_part
short_part-IsValid = ground arith

parse_packet_header-contents_example :
    parse_packet_header short_part ≡ header_of (contents short_part)
parse_packet_header-contents_example = parse_packet_header-contents short_part-IsValid

part_valid : is_valid (parse_packet_header part) ≡ true
unfolding is_valid
part_valid = rw part_header refl

packet_has_room_example :
    (parse_packet_header part).size
    ≤ get_readable_size (compact part) + get_writable_size (compact part)
packet_has_room_example = packet_has_room part-IsValid (omega arith) part_valid

-- ===== src/Packet/Header.antt =====
-- ParsePacketHeader against the bytes on the wire, and the room that a packet needs.
use tux_base_mmo.Common.{
  ℕ, zero, suc, refl, ◌+◌, ◌*◌, ltb, if◌then◌else◌, ◌-◌, ◌/◌, ◌%◌, ◌≤◌, ◌<◌, ◌≡◌, ap, ◌∙◌, true,
  List, [], ◌∷◌, ◌++◌, arith, slice,
}
use tux_base_mmo.RecvBuffer.{
  RecvBuffer, get_readable_size, get_readable_span, get_writable_size, compact,
}
use tux_base_mmo.RecvBuffer.Invariant.{
  IsValid, contents, readable_exact, writable_exact, compact_lem,
}
use tux_base_mmo.Packet.{
  PacketHeader, k_header_size, k_max_packet_size, is_valid, parse_packet_header, no_header,
  copy_header,
}

-- The four bytes of a header on the wire, the low byte of each field first.
abbrev pub header_bytes : PacketHeader → List ℕ
header_bytes h = h.size % 256 ∷ h.size / 256 ∷ h.id % 256 ∷ h.id / 256 ∷ []

-- The header that the bytes on the wire begin with; before four bytes have arrived, the header of
-- zeros.
abbrev pub header_of : List ℕ → PacketHeader
header_of (a ∷ b ∷ c ∷ d ∷ rest) = record { size = a + 256 * b; id = c + 256 * d }
header_of _ = no_header

header_of-slice :
    (m : ℕ → ℕ) (p n : ℕ)
    → header_of (slice m p n) ≡ (if ltb n k_header_size then no_header else copy_header m p)
header_of-slice m p zero = refl
header_of-slice m p (suc zero) = refl
header_of-slice m p (suc (suc zero)) = refl
header_of-slice m p (suc (suc (suc zero))) = refl
header_of-slice m p (suc (suc (suc (suc n)))) = ground arith

-- In a valid buffer, ParsePacketHeader gives the header that the bytes to read begin with, both fields
-- little-endian, or the header of zeros if fewer than four bytes have arrived.
pub parse_packet_header-contents :
    {b : RecvBuffer} → IsValid b → parse_packet_header b ≡ header_of (contents b)
unfolding parse_packet_header get_readable_span
parse_packet_header-contents {b} v =
    rw (header_of-slice b.buffer b.read_pos (b.write_pos - b.read_pos))
      (ground (arith, readable_exact v))

-- Whatever follows the four bytes of a header in a valid buffer, and whether or not the rest of the
-- packet has arrived, ParsePacketHeader gives that header.
pub parse_packet_header-header_bytes :
    {b : RecvBuffer} (h : PacketHeader) (rest : List ℕ)
    → IsValid b
    → contents b ≡ header_bytes h ++ rest
    → parse_packet_header b ≡ h
parse_packet_header-header_bytes h rest v e =
    parse_packet_header-contents v ∙ ap header_of e ∙ ground arith

is_valid_bounded : (h : PacketHeader) → is_valid h ≡ true → h.size < k_max_packet_size
unfolding is_valid
is_valid_bounded h e = ground arith

compact_space :
    {b : RecvBuffer} → IsValid b → b.min_writable_size ≤ (compact b).capacity - (compact b).read_pos
unfolding compact
compact_space {b} v = ground (arith, readable_exact v, writable_exact v)

-- If the smallest write of a valid buffer is the largest packet, then after Compact the packet whose
-- valid header is at the front has room in the buffer, however much of it has arrived: the rest can
-- be received.
pub packet_has_room :
    {b : RecvBuffer}
    → IsValid b
    → k_max_packet_size ≤ b.min_writable_size
    → is_valid (parse_packet_header b) ≡ true
    → (parse_packet_header b).size ≤ get_readable_size (compact b) + get_writable_size (compact b)
packet_has_room {b} v large valid =
    rw (readable_exact moved, writable_exact moved)
      (omega (arith, moved.ordered, moved.in_buffer, bounded, compact_space v))
  where
    moved : IsValid (compact b)
    moved = (compact_lem v).0

    bounded : (parse_packet_header b).size < k_max_packet_size
    bounded = is_valid_bounded (parse_packet_header b) valid

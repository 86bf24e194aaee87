-- ===== src/Parsing/Examples.antt =====
-- A UDP packet with one word of IPv4 options, and a frame that is cut short.
use dpdk_code.Base.{
  ℕ, ◌≡◌, refl, true, false, some, none, List, [], ◌∷◌, arith, length, is_some, leb,
}
use dpdk_code.Parsing.{
  Line, bytes_at, byte_at, be16_at, be32_at, parse_ipv4, parse_payload, parse_frame, packet_parsing,
  parser,
}
use dpdk_code.Parsing.Bounds.{claimed, parsers_inside}
use dpdk_code.Parsing.Frames.Encoding.{
  Ipv4, Frame, ipv4, udp, IsIpv4, IsFrame, frame_bytes, frame_lines,
}
use dpdk_code.Parsing.Frames.{parsers_print_frames}

abbrev header : Ipv4
header = record {
  version = 4;
  ihl = 6;
  f1 = 0;
  f2 = 0;
  f3 = 36;
  f4 = 0;
  f5 = 7;
  f6 = 0;
  f7 = 0;
  f8 = 64;
  sum1 = 0;
  sum2 = 0;
  src0 = 192;
  src1 = 168;
  src2 = 0;
  src3 = 1;
  dst0 = 8;
  dst1 = 8;
  dst2 = 8;
  dst3 = 8;
  options = 1 ∷ 1 ∷ 1 ∷ 0 ∷ [];
}

header-IsIpv4 : IsIpv4 header
header-IsIpv4 = record {
  ihl = omega arith;
  words = omega arith;
  src0 = omega arith;
  src1 = omega arith;
  src2 = omega arith;
  src3 = omega arith;
  dst0 = omega arith;
  dst1 = omega arith;
  dst2 = omega arith;
  dst3 = omega arith;
}

abbrev dns : Frame
dns = record {
  dst = 2 ∷ 0 ∷ 0 ∷ 0 ∷ 0 ∷ 2 ∷ [];
  src = 2 ∷ 0 ∷ 0 ∷ 0 ∷ 0 ∷ 1 ∷ [];
  network = ipv4 header (udp 1234 53 (0 ∷ 8 ∷ 0 ∷ 0 ∷ []));
}

dns-IsFrame : IsFrame dns
dns-IsFrame = (refl, refl, (header-IsIpv4, tt))

parsers_print_frames_example :
    (packet_parsing (frame_bytes dns) ≡ some (frame_lines true dns))
    × (parser (frame_bytes dns) ≡ some (frame_lines false dns))
parsers_print_frames_example = parsers_print_frames dns dns-IsFrame

-- What is printed of it behind the MAC addresses.
dns_lines :
    frame_lines true dns
    ≡ Line.ethernet
      ∷ Line.src_mac dns.src
      ∷ Line.dst_mac true dns.dst
      ∷ Line.ipv4
      ∷ Line.src_ip 192 168 0 1
      ∷ Line.dst_ip 8 8 8 8
      ∷ Line.udp
      ∷ Line.src_port 1234
      ∷ Line.dst_port 53
      ∷ []
dns_lines = refl

abbrev cut_short : List ℕ
cut_short = 2 ∷ 0 ∷ 0 ∷ 0 ∷ 0 ∷ 2 ∷ 2 ∷ 0 ∷ 0 ∷ 0 ∷ 0 ∷ 1 ∷ 0x08 ∷ 0x00 ∷ 0x45 ∷ []

parsers_inside_example :
    (is_some (packet_parsing cut_short) ≡ leb (claimed cut_short) (length cut_short))
    × (is_some (parser cut_short) ≡ leb (claimed cut_short) (length cut_short))
parsers_inside_example = parsers_inside cut_short

cut_short_overread : packet_parsing cut_short ≡ none
unfolding packet_parsing parse_frame parse_payload parse_ipv4 byte_at be16_at be32_at bytes_at
cut_short_overread = refl

-- ===== src/Parsing/Frames.antt =====
-- What packet_parsing and the parser of ThreadedParsing/ print of any frame.
mod Layout
pub mod Encoding
use dpdk_code.Base.{
  ℕ, zero, suc, ◌+◌, ◌*◌, ◌/◌, ◌%◌, ◌^◌, ◌<◌, ◌≡◌, ◌≢◌, ◌∙◌, sym, ap, refl, Bool, true, false, some,
  List, [], ◌∷◌, ◌++◌, length, ◌==◌, if◌then◌else◌, arith, get_elem?,
}
use dpdk_code.Parsing.{
  Line, octets, bytes_at, byte_at, be16_at, be32_at, print_ports, ipv4_transport, ipv6_transport,
  parse_ipv4, parse_ipv6, parse_payload, parse_frame, packet_parsing, parser, ether_type_ipv4,
  ether_type_ipv6,
}
use dpdk_code.Parsing.Frames.Layout.{
  Within, append-Within, Within-trans, byte_at-within, bytes_at-within, be16_at-within,
  be32_at-within, ipv4_transport-within, ipv6_transport-within, bytes_at-prefix, octets_of,
}
use dpdk_code.Parsing.Frames.Encoding.{
  Transport, Ipv4, Ipv6, Network, Frame, tcp, udp, other, ipv4, ipv6, unknown, proto, two_bytes,
  transport_bytes, ipv4_header, ipv6_header, ether_type, network_bytes, frame_bytes,
  transport_lines, other_over_ipv4, other_over_ipv6, network_lines, frame_lines, IsTransport,
  IsIpv4, IsNetwork, IsFrame,
}

ipv4_transport_lines :
    (t : Transport)
    → IsTransport t
    → ipv4_transport (transport_bytes t) 0 (proto t) ≡ some (transport_lines other_over_ipv4 t)
unfolding ipv4_transport print_ports be16_at
ipv4_transport_lines (tcp s d rest) h = ground arith
ipv4_transport_lines (udp s d rest) h = ground arith
ipv4_transport_lines (other p payload) h = ground arith

ipv6_transport_lines :
    (t : Transport)
    → IsTransport t
    → ipv6_transport (transport_bytes t) 0 (proto t) ≡ some (transport_lines other_over_ipv6 t)
unfolding ipv6_transport print_ports be16_at
ipv6_transport_lines (tcp s d rest) h = ground arith
ipv6_transport_lines (udp s d rest) h = ground arith
ipv6_transport_lines (other p payload) h = ground arith

module _ (h : Ipv4) (t : Transport) (ok : IsIpv4 h) (ok_t : IsTransport t) (d : List ℕ)
    (inside : Within d 14 (network_bytes (ipv4 h t))) where
  abbrev packet : List ℕ
  packet = network_bytes (ipv4 h t)

  read_version : byte_at d 14 ≡ some (h.version * 16 + h.ihl)
  unfolding byte_at
  read_version = byte_at-within d packet 14 inside 14 0 refl

  read_proto : byte_at d 23 ≡ some (proto t)
  unfolding byte_at
  read_proto = byte_at-within d packet 14 inside 23 9 refl

  read_src : be32_at d 26 ≡ some (((h.src0 * 256 + h.src1) * 256 + h.src2) * 256 + h.src3)
  unfolding be32_at
  read_src = be32_at-within d packet 14 inside 26 12 refl

  read_dst : be32_at d 30 ≡ some (((h.dst0 * 256 + h.dst1) * 256 + h.dst2) * 256 + h.dst3)
  unfolding be32_at
  read_dst = be32_at-within d packet 14 inside 30 16 refl

  payload-Within : Within d (34 + length h.options) (transport_bytes t)
  payload-Within =
      let payload = h.options ++ transport_bytes t in
      Within-trans d payload (transport_bytes t) 34 (length h.options)
        (Within-trans d packet payload 14 20 inside
          (append-Within (ipv4_header h (proto t)) payload 20 refl))
        (append-Within h.options (transport_bytes t) (length h.options) refl)

  read_transport :
      ipv4_transport d (14 + (h.version * 16 + h.ihl) % 16 * 4) (proto t)
      ≡ some (transport_lines other_over_ipv4 t)
  read_transport =
      ipv4_transport-within d (transport_bytes t) (34 + length h.options) payload-Within
        (14 + (h.version * 16 + h.ihl) % 16 * 4) 0 (proto t) (omega (arith, ok.ihl, ok.words))
      ∙ ipv4_transport_lines t ok_t

  parse_ipv4_lines : parse_ipv4 d 14 ≡ some (network_lines (ipv4 h t))
  unfolding parse_ipv4
  parse_ipv4_lines =
      rw (read_version, read_src, read_dst, read_proto, read_transport)
        (rw (
          octets_of Line.src_ip h.src0 h.src1 h.src2 h.src3 ok.src0 ok.src1 ok.src2 ok.src3,
          octets_of Line.dst_ip h.dst0 h.dst1 h.dst2 h.dst3 ok.dst0 ok.dst1 ok.dst2 ok.dst3,
        ))

module _ (h : Ipv6) (t : Transport) (src16 : length h.src ≡ 16) (dst16 : length h.dst ≡ 16)
    (ok_t : IsTransport t) (d : List ℕ) (inside : Within d 14 (network_bytes (ipv6 h t))) where
  abbrev packet6 : List ℕ
  packet6 = network_bytes (ipv6 h t)

  abbrev behind_src : List ℕ
  behind_src = h.dst ++ transport_bytes t

  addresses-Within : Within d 22 (h.src ++ behind_src)
  addresses-Within =
      Within-trans d packet6 (h.src ++ behind_src) 14 8 inside
        (append-Within (ipv6_header h (proto t)) (h.src ++ behind_src) 8 refl)

  dst-Within : Within d 38 behind_src
  dst-Within =
      Within-trans d (h.src ++ behind_src) behind_src 22 16 addresses-Within
        (append-Within h.src behind_src 16 (sym src16))

  payload6-Within : Within d 54 (transport_bytes t)
  payload6-Within =
      Within-trans d behind_src (transport_bytes t) 38 16 dst-Within
        (append-Within h.dst (transport_bytes t) 16 (sym dst16))

  parse_ipv6_lines : parse_ipv6 d 14 ≡ some (network_lines (ipv6 h t))
  unfolding parse_ipv6 byte_at
  parse_ipv6_lines = rw (
    bytes_at-within d (h.src ++ behind_src) 22 addresses-Within 16 22 0 refl,
    bytes_at-prefix h.src behind_src 16 (sym src16),
    bytes_at-within d behind_src 38 dst-Within 16 38 0 refl,
    bytes_at-prefix h.dst (transport_bytes t) 16 (sym dst16),
    byte_at-within d packet6 14 inside 20 6 refl,
    ipv6_transport-within d (transport_bytes t) 54 payload6-Within 54 0 (proto t) refl,
    ipv6_transport_lines t ok_t,
  )

parse_payload_lines :
    (n : Network) (d : List ℕ)
    → IsNetwork n
    → Within d 14 (network_bytes n)
    → parse_payload d (ether_type n) ≡ some (network_lines n)
unfolding parse_payload
parse_payload_lines (ipv4 h t) d (ok, ok_t) inside = parse_ipv4_lines h t ok ok_t d inside
parse_payload_lines (ipv6 h t) d (src16, dst16, ok_t) inside =
    parse_ipv6_lines h t src16 dst16 ok_t d inside
parse_payload_lines (unknown e payload) d ok inside = ground arith

two_bytes_read : (n : ℕ) (rest : List ℕ) → be16_at (two_bytes n rest) 0 ≡ some n
unfolding be16_at
two_bytes_read n rest = ground arith

parse_frame_lines :
    (indented : Bool) (f : Frame)
    → IsFrame f
    → parse_frame indented (frame_bytes f) ≡ some (frame_lines indented f)
unfolding parse_frame
parse_frame_lines indented f (dst6, src6, ok) =
    let d = frame_bytes f in
    let behind_src = two_bytes (ether_type f.network) (network_bytes f.network) in
    let behind_dst = f.src ++ behind_src in
    let from_src : Within d 6 behind_dst = append-Within f.dst behind_dst 6 (sym dst6) in
    let from_type : Within d 12 behind_src =
      Within-trans d behind_dst behind_src 6 6 from_src
        (append-Within f.src behind_src 6 (sym src6)) in
    let from_network : Within d 14 (network_bytes f.network) =
      Within-trans d behind_src (network_bytes f.network) 12 2 from_type
        (append-Within (two_bytes (ether_type f.network) []) (network_bytes f.network) 2 refl) in
    rw (
      bytes_at-within d behind_dst 6 from_src 6 6 0 refl,
      bytes_at-prefix f.src behind_src 6 (sym src6),
      bytes_at-prefix f.dst behind_dst 6 (sym dst6),
      be16_at-within d behind_src 12 from_type 12 0 refl,
      two_bytes_read (ether_type f.network) (network_bytes f.network),
      parse_payload_lines f.network d ok from_network,
    )

-- For any frame that is built from two MAC addresses of six bytes and either an IPv4 header with
-- options that its length in words counts and addresses of bytes below 256, or an IPv6 header with
-- addresses of 16 bytes, or another EtherType with any payload, where IPv4 and IPv6 carry TCP or
-- UDP with its two ports or any other protocol with any payload: packet_parsing prints exactly the
-- MAC addresses, the kind of the network header with its addresses, and the protocol with its
-- ports, or the number of a protocol or EtherType that it does not know; and the parser of
-- ThreadedParsing/ prints the same but for the indentation of one line.
pub parsers_print_frames :
    (f : Frame)
    → IsFrame f
    → (packet_parsing (frame_bytes f) ≡ some (frame_lines true f))
      × (parser (frame_bytes f) ≡ some (frame_lines false f))
unfolding packet_parsing parser
parsers_print_frames f ok = (parse_frame_lines true f ok, parse_frame_lines false f ok)

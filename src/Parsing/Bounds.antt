-- ===== src/Parsing/Bounds.antt =====
-- How long a frame must be for the parsers to stay inside it.
use dpdk_code.Base.{
  ℕ, ◌+◌, ◌*◌, ◌%◌, ◌≡◌, Bool, true, false, ◌||◌, List, length, is_some, leb, ◌==◌, if◌then◌else◌,
  arith, get_or, max,
}
use dpdk_code.Parsing.{
  Line, ether_type_ipv4, ether_type_ipv6, print_ports, ipv4_transport, ipv6_transport, parse_ipv4,
  parse_ipv6, parse_payload, parse_frame, packet_parsing, parser,
}
use dpdk_code.Parsing.Reads.{byte_at_inside, be16_at_inside, is_some-be32_at, is_some-bytes_at}

abbrev pub has_ports : ℕ → Bool
has_ports proto = proto == 6 || proto == 17

-- The bytes that the headers of a frame claim: Ethernet, IP with its options, and the ports.
abbrev pub claimed_ipv4 : List ℕ → ℕ
claimed_ipv4 d = if has_ports (get_or d 23 0) then max 34 (18 + get_or d 14 0 % 16 * 4) else 34

abbrev pub claimed_ipv6 : List ℕ → ℕ
claimed_ipv6 d = if has_ports (get_or d 20 0) then 58 else 54

abbrev pub eth_type_of : List ℕ → ℕ
eth_type_of d = get_or d 12 0 * 256 + get_or d 13 0

abbrev pub claimed : List ℕ → ℕ
claimed d =
    if eth_type_of d == ether_type_ipv4
    then claimed_ipv4 d
    else if eth_type_of d == ether_type_ipv6
    then claimed_ipv6 d
    else 14

is_some-print_ports :
    (name : Line) (d : List ℕ) (at : ℕ) → is_some (print_ports name d at) ≡ leb (at + 4) (length d)
unfolding print_ports
is_some-print_ports name d at = ground (arith, be16_at_inside d at, be16_at_inside d (at + 2))

is_some-ipv4_transport :
    (d : List ℕ) (at proto : ℕ)
    → is_some (ipv4_transport d at proto)
      ≡ (if has_ports proto then leb (at + 4) (length d) else true)
unfolding ipv4_transport
is_some-ipv4_transport d at proto =
    ground (arith, is_some-print_ports Line.tcp d at, is_some-print_ports Line.udp d at)

is_some-ipv6_transport :
    (d : List ℕ) (at proto : ℕ)
    → is_some (ipv6_transport d at proto)
      ≡ (if has_ports proto then leb (at + 4) (length d) else true)
unfolding ipv6_transport
is_some-ipv6_transport d at proto =
    ground (arith, is_some-print_ports Line.tcp d at, is_some-print_ports Line.udp d at)

is_some-parse_ipv4 : (d : List ℕ) → is_some (parse_ipv4 d 14) ≡ leb (claimed_ipv4 d) (length d)
unfolding parse_ipv4
is_some-parse_ipv4 d = ground (
  arith,
  byte_at_inside d 14,
  is_some-be32_at d 26,
  is_some-be32_at d 30,
  byte_at_inside d 23,
  is_some-ipv4_transport d (14 + get_or d 14 0 % 16 * 4) (get_or d 23 0),
)

is_some-parse_ipv6 : (d : List ℕ) → is_some (parse_ipv6 d 14) ≡ leb (claimed_ipv6 d) (length d)
unfolding parse_ipv6
is_some-parse_ipv6 d = ground (
  arith,
  is_some-bytes_at d 22 15,
  is_some-bytes_at d 38 15,
  byte_at_inside d 20,
  is_some-ipv6_transport d 54 (get_or d 20 0),
)

is_some-parse_frame :
    (b : Bool) (d : List ℕ) → is_some (parse_frame b d) ≡ leb (claimed d) (length d)
unfolding parse_frame parse_payload
is_some-parse_frame b d = ground (
  arith,
  is_some-bytes_at d 6 5,
  is_some-bytes_at d 0 5,
  be16_at_inside d 12,
  is_some-parse_ipv4 d,
  is_some-parse_ipv6 d,
)

-- Both parsers stay inside a frame exactly when it is as long as its own headers claim: 14 bytes,
-- 34 or 54 with an IP header, and, for TCP and UDP, the four bytes of the ports behind the IPv4
-- options or the IPv6 header. On any shorter frame they read behind its end.
pub parsers_inside :
    (d : List ℕ)
    → (is_some (packet_parsing d) ≡ leb (claimed d) (length d))
      × (is_some (parser d) ≡ leb (claimed d) (length d))
unfolding packet_parsing parser
parsers_inside d = (is_some-parse_frame true d, is_some-parse_frame false d)

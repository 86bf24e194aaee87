-- ===== src/Parsing.antt =====
-- PacketParsing/packet_parsing.c and ThreadedParsing/parser.c: a frame is taken apart, and what is
-- found is printed. The two functions have the same text but for two spaces in one line of output.
-- The headers are the structs of DPDK, which are the network formats of the protocols.
pub mod Reads
pub mod Bounds
pub mod Frames
mod Examples
use dpdk_code.Base.{
  ℕ, zero, suc, ◌+◌, ◌*◌, ◌/◌, ◌%◌, ◌^◌, Bool, true, false, Option, none, some, List, [], ◌∷◌, ◌++◌,
  ◌>>=◌, get_elem?, ◌==◌, if◌then◌else◌,
}

-- A line of output, with the values that are printed in it.
pub data Line : Type 0 where
  ethernet ipv4 ipv6 tcp udp icmp icmpv6 : Line
  src_mac : List ℕ → Line
  dst_mac : Bool → List ℕ → Line
  src_ip dst_ip : ℕ → ℕ → ℕ → ℕ → Line
  src_ip6 dst_ip6 : List ℕ → Line
  src_port dst_port : ℕ → Line
  other_ipv4 other_ipv6 unknown_ethertype : ℕ → Line

abbrev pub ether_type_ipv4 : ℕ
ether_type_ipv4 = 0x0800

abbrev pub ether_type_ipv6 : ℕ
ether_type_ipv6 = 0x86DD

-- The bytes of the packet from `at` on; `none` where the code reads behind the end of the packet.
unfoldable pub bytes_at : List ℕ → ℕ → ℕ → Option (List ℕ)
bytes_at d at zero = some []
bytes_at d at (suc n) = do b ← get_elem? d at; bs ← bytes_at d (at + 1) n; some (b ∷ bs)

unfoldable pub byte_at : List ℕ → ℕ → Option ℕ
byte_at d at = get_elem? d at

-- `rte_be_to_cpu_16` and `rte_be_to_cpu_32` of a field.
unfoldable pub be16_at : List ℕ → ℕ → Option ℕ
be16_at d at = do hi ← get_elem? d at; lo ← get_elem? d (at + 1); some (hi * 256 + lo)

unfoldable pub be32_at : List ℕ → ℕ → Option ℕ
be32_at d at = do
  a ← get_elem? d at
  b ← get_elem? d (at + 1)
  c ← get_elem? d (at + 2)
  e ← get_elem? d (at + 3)
  some (((a * 256 + b) * 256 + c) * 256 + e)

-- `(ip >> 24) & 0xff`, `(ip >> 16) & 0xff`, `(ip >> 8) & 0xff`, `ip & 0xff`.
abbrev pub octets : (ℕ → ℕ → ℕ → ℕ → Line) → ℕ → Line
octets line ip = line (ip / 2 ^ 24 % 256) (ip / 2 ^ 16 % 256) (ip / 2 ^ 8 % 256) (ip % 256)

-- The ports of a TCP or UDP header at `at`, under the line that names the protocol.
unfoldable pub print_ports : Line → List ℕ → ℕ → Option (List Line)
print_ports name d at = do
  src ← be16_at d at
  dst ← be16_at d (at + 2)
  some (name ∷ src_port src ∷ dst_port dst ∷ [])

unfoldable pub ipv4_transport : List ℕ → ℕ → ℕ → Option (List Line)
ipv4_transport d at proto =
    if proto == 6
    then print_ports tcp d at
    else if proto == 17
    then print_ports udp d at
    else if proto == 1
    then some (icmp ∷ [])
    else some (other_ipv4 proto ∷ [])

unfoldable pub ipv6_transport : List ℕ → ℕ → ℕ → Option (List Line)
ipv6_transport d at proto =
    if proto == 6
    then print_ports tcp d at
    else if proto == 17
    then print_ports udp d at
    else if proto == 58
    then some (icmpv6 ∷ [])
    else some (other_ipv6 proto ∷ [])

-- The header at `at`, whose length `ihl` is in its first byte.
unfoldable pub parse_ipv4 : List ℕ → ℕ → Option (List Line)
parse_ipv4 d at = do
  version_ihl ← byte_at d at
  src ← be32_at d (at + 12)
  dst ← be32_at d (at + 16)
  proto ← byte_at d (at + 9)
  let ihl = version_ihl % 16 * 4
  rest ← ipv4_transport d (at + ihl) proto
  some (ipv4 ∷ octets src_ip src ∷ octets dst_ip dst ∷ rest)

unfoldable pub parse_ipv6 : List ℕ → ℕ → Option (List Line)
parse_ipv6 d at = do
  src ← bytes_at d (at + 8) 16
  dst ← bytes_at d (at + 24) 16
  proto ← byte_at d (at + 6)
  rest ← ipv6_transport d (at + 40) proto
  some (ipv6 ∷ src_ip6 src ∷ dst_ip6 dst ∷ rest)

unfoldable pub parse_payload : List ℕ → ℕ → Option (List Line)
parse_payload d eth_type =
    if eth_type == ether_type_ipv4
    then parse_ipv4 d 14
    else if eth_type == ether_type_ipv6
    then parse_ipv6 d 14
    else some (unknown_ethertype eth_type ∷ [])

unfoldable pub parse_frame : Bool → List ℕ → Option (List Line)
parse_frame indented d = do
  src ← bytes_at d 6 6
  dst ← bytes_at d 0 6
  eth_type ← be16_at d 12
  rest ← parse_payload d eth_type
  some (ethernet ∷ src_mac src ∷ dst_mac indented dst ∷ rest)

unfoldable pub packet_parsing : List ℕ → Option (List Line)
packet_parsing d = parse_frame true d

-- `__parser`
unfoldable pub parser : List ℕ → Option (List Line)
parser d = parse_frame false d

-- ===== src/Parsing/Frames/Encoding.antt =====
-- Frames by the formats of the protocols: Ethernet, IPv4 and IPv6, TCP and UDP.
use dpdk_code.Base.{
  ℕ, ◌+◌, ◌*◌, ◌/◌, ◌%◌, ◌<◌, ◌≡◌, ◌≢◌, Bool, List, [], ◌∷◌, ◌++◌, length, ◌==◌, if◌then◌else◌,
}
use dpdk_code.Parsing.{Line, ether_type_ipv4, ether_type_ipv6}

-- TCP or UDP, as far as its ports, or any other protocol.
pub data Transport : Type 0 where
  tcp udp : (src_port dst_port : ℕ) → (rest : List ℕ) → Transport
  other : (proto : ℕ) → (payload : List ℕ) → Transport

-- `ihl` counts words of four bytes; `f1` to `f8` and the checksum are what the parsers skip.
pub record Ipv4 : Type 0 where
  pub version : ℕ
  pub ihl : ℕ
  pub f1 : ℕ
  pub f2 : ℕ
  pub f3 : ℕ
  pub f4 : ℕ
  pub f5 : ℕ
  pub f6 : ℕ
  pub f7 : ℕ
  pub f8 : ℕ
  pub sum1 : ℕ
  pub sum2 : ℕ
  pub src0 : ℕ
  pub src1 : ℕ
  pub src2 : ℕ
  pub src3 : ℕ
  pub dst0 : ℕ
  pub dst1 : ℕ
  pub dst2 : ℕ
  pub dst3 : ℕ
  pub options : List ℕ

pub record Ipv6 : Type 0 where
  pub f0 : ℕ
  pub f1 : ℕ
  pub f2 : ℕ
  pub f3 : ℕ
  pub f4 : ℕ
  pub f5 : ℕ
  pub hop_limits : ℕ
  pub src : List ℕ
  pub dst : List ℕ

pub data Network : Type 0 where
  ipv4 : Ipv4 → Transport → Network
  ipv6 : Ipv6 → Transport → Network
  unknown : (ether_type : ℕ) → (payload : List ℕ) → Network

pub record Frame : Type 0 where
  pub dst : List ℕ
  pub src : List ℕ
  pub network : Network

abbrev pub proto : Transport → ℕ
proto (tcp s d rest) = 6
proto (udp s d rest) = 17
proto (other p payload) = p

abbrev pub two_bytes : ℕ → List ℕ → List ℕ
two_bytes n rest = n / 256 ∷ n % 256 ∷ rest

abbrev pub transport_bytes : Transport → List ℕ
transport_bytes (tcp s d rest) = two_bytes s (two_bytes d rest)
transport_bytes (udp s d rest) = two_bytes s (two_bytes d rest)
transport_bytes (other p payload) = payload

abbrev pub ipv4_header : Ipv4 → ℕ → List ℕ
ipv4_header h proto =
    (h.version * 16 + h.ihl)
    ∷ h.f1
    ∷ h.f2
    ∷ h.f3
    ∷ h.f4
    ∷ h.f5
    ∷ h.f6
    ∷ h.f7
    ∷ h.f8
    ∷ proto
    ∷ h.sum1
    ∷ h.sum2
    ∷ h.src0
    ∷ h.src1
    ∷ h.src2
    ∷ h.src3
    ∷ h.dst0
    ∷ h.dst1
    ∷ h.dst2
    ∷ h.dst3
    ∷ []

abbrev pub ipv6_header : Ipv6 → ℕ → List ℕ
ipv6_header h proto = h.f0 ∷ h.f1 ∷ h.f2 ∷ h.f3 ∷ h.f4 ∷ h.f5 ∷ proto ∷ h.hop_limits ∷ []

abbrev pub ether_type : Network → ℕ
ether_type (ipv4 h t) = ether_type_ipv4
ether_type (ipv6 h t) = ether_type_ipv6
ether_type (unknown e payload) = e

abbrev pub network_bytes : Network → List ℕ
network_bytes (ipv4 h t) = ipv4_header h (proto t) ++ (h.options ++ transport_bytes t)
network_bytes (ipv6 h t) = ipv6_header h (proto t) ++ (h.src ++ (h.dst ++ transport_bytes t))
network_bytes (unknown e payload) = payload

abbrev pub frame_bytes : Frame → List ℕ
frame_bytes f = f.dst ++ (f.src ++ two_bytes (ether_type f.network) (network_bytes f.network))

-- What a reader of such a frame is told.
abbrev pub transport_lines : (ℕ → Line) → Transport → List Line
transport_lines others (tcp s d rest) = Line.tcp ∷ Line.src_port s ∷ Line.dst_port d ∷ []
transport_lines others (udp s d rest) = Line.udp ∷ Line.src_port s ∷ Line.dst_port d ∷ []
transport_lines others (other p payload) = others p ∷ []

abbrev pub other_over_ipv4 : ℕ → Line
other_over_ipv4 p = if p == 1 then Line.icmp else Line.other_ipv4 p

abbrev pub other_over_ipv6 : ℕ → Line
other_over_ipv6 p = if p == 58 then Line.icmpv6 else Line.other_ipv6 p

abbrev pub network_lines : Network → List Line
network_lines (ipv4 h t) =
    Line.ipv4
    ∷ Line.src_ip h.src0 h.src1 h.src2 h.src3
    ∷ Line.dst_ip h.dst0 h.dst1 h.dst2 h.dst3
    ∷ transport_lines other_over_ipv4 t
network_lines (ipv6 h t) =
    Line.ipv6 ∷ Line.src_ip6 h.src ∷ Line.dst_ip6 h.dst ∷ transport_lines other_over_ipv6 t
network_lines (unknown e payload) = Line.unknown_ethertype e ∷ []

abbrev pub frame_lines : Bool → Frame → List Line
frame_lines indented f =
    Line.ethernet ∷ Line.src_mac f.src ∷ Line.dst_mac indented f.dst ∷ network_lines f.network

abbrev pub IsTransport : Transport → Type 0
IsTransport (tcp s d rest) = Unit {0}
IsTransport (udp s d rest) = Unit {0}
IsTransport (other p payload) = (p ≢ 6) × (p ≢ 17)

-- The header length counts the options, and an address consists of bytes.
pub record IsIpv4 (h : Ipv4) : Type 0 where
  pub ihl : h.ihl < 16
  pub words : length h.options + 20 ≡ h.ihl * 4
  pub src0 : h.src0 < 256
  pub src1 : h.src1 < 256
  pub src2 : h.src2 < 256
  pub src3 : h.src3 < 256
  pub dst0 : h.dst0 < 256
  pub dst1 : h.dst1 < 256
  pub dst2 : h.dst2 < 256
  pub dst3 : h.dst3 < 256

abbrev pub IsNetwork : Network → Type 0
IsNetwork (ipv4 h t) = IsIpv4 h × IsTransport t
IsNetwork (ipv6 h t) = (length h.src ≡ 16) × (length h.dst ≡ 16) × IsTransport t
IsNetwork (unknown e payload) = (e ≢ ether_type_ipv4) × (e ≢ ether_type_ipv6)

abbrev pub IsFrame : Frame → Type 0
IsFrame f = (length f.dst ≡ 6) × (length f.src ≡ 6) × IsNetwork f.network

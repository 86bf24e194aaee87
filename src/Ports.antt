-- ===== src/Ports.antt =====
-- Ports/ports.c and the loop of PacketParsing/main.c: one core that receives, looks and lets go.
pub mod Echo
pub mod Setup
mod Examples
use dpdk_code.Base.{ℕ, suc, Option, none, some, List, [], ◌∷◌, ◌++◌, ◌>>=◌, length, take, map}
use dpdk_code.Parsing.{Line, packet_parsing}
use dpdk_code.Threaded.{unsent}

-- A packet, with its mbuf and bytes.
pub record Packet : Type 0 where
  pub mbuf : ℕ
  pub bytes : List ℕ

-- "Packet %d: len=%u : " and the bytes behind it.
pub record Dump : Type 0 where
  pub index : ℕ
  pub data_len : ℕ
  pub bytes : List ℕ

pub record Echoed : Type 0 where
  pub received : List ℕ
  pub sent : List ℕ
  pub freed : List ℕ
  pub dumps : List Dump

abbrev pub mbufs : List Packet → List ℕ
mbufs ps = map (λ (p : Packet). p.mbuf) ps

-- The loop that prints the packets, from packet `i` on.
unfoldable pub dump_from : ℕ → List Packet → List Dump
dump_from i [] = []
dump_from i (p ∷ ps) =
    (record { index = i; data_len = length p.bytes; bytes = p.bytes }) ∷ dump_from (suc i) ps

-- A round of the loop of Ports/ports.c: the card gives `buff` and takes `nb_tx` of them back. An
-- empty burst changes nothing.
unfoldable pub echo_round : Echoed → List Packet → ℕ → Echoed
unfolding unsent
echo_round s buff nb_tx = record {
  received = s.received ++ mbufs buff;
  sent = s.sent ++ take nb_tx (mbufs buff);
  freed = s.freed ++ unsent nb_tx (mbufs buff);
  dumps = s.dumps ++ dump_from 0 buff;
}

pub record Round : Type 0 where
  pub buff : List Packet
  pub nb_tx : ℕ

unfoldable pub echo_loop : Echoed → List Round → Echoed
echo_loop s [] = s
echo_loop s (r ∷ rs) = echo_loop (echo_round s r.buff r.nb_tx) rs

pub record Parsed : Type 0 where
  pub printed : List (List Line)
  pub freed : List ℕ

-- The loop over a burst in PacketParsing/main.c: each packet is parsed and freed.
unfoldable pub parse_burst : Parsed → List Packet → Option Parsed
parse_burst s [] = some s
parse_burst s (p ∷ ps) = do
  lines ← packet_parsing p.bytes
  parse_burst (record { printed = s.printed ++ (lines ∷ []); freed = s.freed ++ (p.mbuf ∷ []) }) ps

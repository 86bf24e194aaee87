-- ===== src/L2fwd/Forward.antt =====
-- l2fwd/main.c: what comes in at one port goes out at the other.
pub mod Crossing
use dpdk_code.Base.{ℕ, List, [], ◌∷◌, ◌++◌, take, ◌==◌, if◌then◌else◌}
use dpdk_code.Threaded.{unsent}

-- What came in at a port, what the card took for a port, and what was freed, as mbufs.
pub record Ports : Type 0 where
  pub received : ℕ → List ℕ
  pub sent : ℕ → List ℕ
  pub freed : List ℕ

-- A burst of one port, with the number of its packets that the card takes for the other.
pub record Burst : Type 0 where
  pub port : ℕ
  pub bufs : List ℕ
  pub nb_tx : ℕ

-- `(port == 0) ? 1 : 0`
unfoldable pub dst_port : ℕ → ℕ
dst_port port = if port == 0 then 1 else 0

-- A log per port, with more at one of them.
abbrev pub log : (ℕ → List ℕ) → ℕ → List ℕ → ℕ → List ℕ
log f port xs q = if q == port then f q ++ xs else f q

-- The body of the loop over the ports. An empty burst changes nothing.
unfoldable pub forward : Ports → Burst → Ports
unfolding unsent dst_port
forward s b = record {
  received = log s.received b.port b.bufs;
  sent = log s.sent (dst_port b.port) (take b.nb_tx b.bufs);
  freed = s.freed ++ unsent b.nb_tx b.bufs;
}

-- The loop of l2fwd_main_loop, for the bursts that the ports give.
unfoldable pub main_loop : Ports → List Burst → Ports
main_loop s [] = s
main_loop s (b ∷ bs) = main_loop (forward s b) bs

-- ===== src/L2fwd/Switch.antt =====
-- l2fwd/veth_peer/main.c: a switch that learns at which port a MAC address is.
pub mod History
pub mod Learning
pub mod Conservation
use dpdk_code.Base.{
  or_same, ℕ, suc, ◌+◌, ◌%◌, ◌^◌, Option, none, some, List, [], ◌∷◌, ◌++◌, ◌>>=◌, ltb, ◌==◌,
  if◌then◌else◌,
}
use dpdk_code.Dpdk.Hash.{HashOps}
use dpdk_code.Parsing.{bytes_at}
use dpdk_code.L2fwd.Forward.{dst_port}

-- The table from MAC addresses to ports, and logs: what was sent, with the port, and what was freed.
pub record State (T : Type 0) : Type 0 where
  pub l2_hash : T
  pub sent : List (ℕ × ℕ)
  pub freed : List ℕ

-- A frame, with what rte_eth_tx_burst returns for it.
pub record Frame : Type 0 where
  pub mbuf : ℕ
  pub bytes : List ℕ
  pub nb_tx : ℕ

pub record Burst : Type 0 where
  pub port : ℕ
  pub frames : List Frame

module _ {T : Type 0} (h : HashOps T (List ℕ) ℕ) where
  -- The return value of rte_hash_add_key_data is not read.
  unfoldable pub learn : T → ℕ → List ℕ → T
  learn t port src_mac = or_same (h.add t src_mac port) t

  -- A port is stored as a pointer, and comes back as a `uint16_t`.
  unfoldable pub out_port : T → ℕ → List ℕ → ℕ
  out_port t port dst_mac = elim (h.lookup t dst_mac) [ some p ↦ p % 2 ^ 16 | none ↦ dst_port port ]

  -- The body of the loop over a burst.
  unfoldable pub switch_frame : State T → ℕ → Frame → Option (State T)
  unfolding learn out_port
  switch_frame s port f = do
    src_mac ← bytes_at f.bytes 6 6
    dst_mac ← bytes_at f.bytes 0 6
    let t = learn s.l2_hash port src_mac
    some (
        if ltb f.nb_tx 1
        then record s { l2_hash = t; freed = s.freed ++ (f.mbuf ∷ []) }
        else record s { l2_hash = t; sent = s.sent ++ ((out_port t port dst_mac, f.mbuf) ∷ []) })

  unfoldable pub switch_frames : State T → ℕ → List Frame → Option (State T)
  switch_frames s port [] = some s
  switch_frames s port (f ∷ fs) = do s' ← switch_frame s port f; switch_frames s' port fs

  -- The loop of l2fwd_main_loop, for the bursts that the ports give.
  unfoldable pub switch_loop : State T → List Burst → Option (State T)
  switch_loop s [] = some s
  switch_loop s (b ∷ bs) = do s' ← switch_frames s b.port b.frames; switch_loop s' bs

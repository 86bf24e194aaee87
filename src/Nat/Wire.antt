-- ===== src/Nat/Wire.antt =====
-- NAT/NWT_actualPkts/main.c: the flows of the frames that a card receives are entered into the
-- table of NAT/Nat_with_TIMER/nwt.c, whose timers and clearing this program shares; the frames are
-- freed. The key is cleared before its fields are set.
pub mod Shared
pub mod Burst
pub mod Round
mod Examples
use dpdk_code.Base.{ℕ, Option, none, some, List, [], ◌∷◌, ◌++◌, ◌>>=◌, ◌==◌, if◌then◌else◌, map}
use dpdk_code.Nat.Timed.{Services, State, NatKey, seen, find_or_create, timer_manage}
use dpdk_code.Nat.Wire.Shared.{refresh_timer, check_global_idle}
use dpdk_code.Parsing.{be16_at, be32_at, ether_type_ipv4}

-- A frame that the card gives: its mbuf and bytes, what rte_malloc would return for it, and the
-- time when its timer is armed.
pub record Frame : Type 0 where
  pub mbuf : ℕ
  pub bytes : List ℕ
  pub mem : Option ℕ
  pub at : ℕ

pub record Running (T C : Type 0) : Type 0 where
  pub nat : State T C
  pub freed : List ℕ

-- The fields behind an Ethernet header of 14 bytes and an IPv4 header of 20 bytes.
unfoldable pub frame_key : List ℕ → Option NatKey
frame_key d = do
  src_ip ← be32_at d 26
  dst_ip ← be32_at d 30
  src_port ← be16_at d 34
  dst_port ← be16_at d 36
  some (record { ip = src_ip; port = src_port; dst_ip = dst_ip; dst_port = dst_port; pad = 0 })

module _ {T C : Type 0} (sv : Services T C) where
  -- The flow of an IPv4 frame.
  unfoldable pub keep_flow : State T C → Frame → Option (State T C)
  keep_flow s f = do
    key ← frame_key f.bytes
    (p, s') ← find_or_create sv s f.mem key
    entry ← s'.heap p
    some (refresh_timer sv s' f.at p)

  -- The body of the loop over the burst.
  unfoldable pub rx_frame : Running T C → Frame → Option (Running T C)
  rx_frame r f = do
    ether_type ← be16_at f.bytes 12
    s ← if ether_type == ether_type_ipv4 then keep_flow r.nat f else some r.nat
    some (record { nat = s; freed = r.freed ++ (f.mbuf ∷ []) })

  unfoldable pub rx_frames : Running T C → List Frame → Option (Running T C)
  rx_frames r [] = some r
  rx_frames r (f ∷ fs) = do r' ← rx_frame r f; rx_frames r' fs

  unfoldable pub rx_burst : Running T C → ℕ → List Frame → Option (Running T C)
  rx_burst r now [] = some r
  rx_burst r now (f ∷ fs) = rx_frames (record r { nat = seen r.nat now }) (f ∷ fs)

  -- A round of the loop of `main`: the burst is received at `now`, the timers are managed at `t`,
  -- idleness is checked at `last`.
  unfoldable pub main_round : Running T C → ℕ → List Frame → ℕ → ℕ → Option (Running T C)
  main_round r now fs t last = do
    r' ← rx_burst r now fs
    s ← timer_manage sv r'.nat t
    s' ← check_global_idle sv s last
    some (record r' { nat = s' })

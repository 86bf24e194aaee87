-- ===== src/L2fwd/Switch/History.antt =====
-- What l2fwd/veth_peer/main.c is to do: a history of the frames decides where the next one goes.
use mathlib.Core.Logic.{ite}
use dpdk_code.Base.{
  ℕ, Option, none, some, List, [], ◌∷◌, ◌++◌, ◌>>=◌, ◌==◌, if◌then◌else◌, ℕ_discrete,
}
use dpdk_code.Parsing.{bytes_at}
use dpdk_code.L2fwd.Forward.{dst_port}
use dpdk_code.L2fwd.Switch.{Frame, Burst}

unfoldable pub Mac-discrete : Discrete (List ℕ)
Mac-discrete = hlevel ℕ_discrete

-- The specification keeps the source address and port of every frame, the newest first.
pub record History : Type 0 where
  pub seen : List (List ℕ × ℕ)
  pub sent : List (ℕ × ℕ)
  pub freed : List ℕ

unfoldable pub last_port : List (List ℕ × ℕ) → List ℕ → Option ℕ
last_port [] mac = none
last_port (x ∷ seen) mac = ite (Mac-discrete mac x.0) (some x.1) (last_port seen mac)

unfoldable pub best_port : List (List ℕ × ℕ) → ℕ → List ℕ → ℕ
best_port seen port mac = elim (last_port seen mac) [ some p ↦ p | none ↦ dst_port port ]

unfoldable pub history_frame : History → ℕ → Frame → Option History
history_frame a port f = do
  src_mac ← bytes_at f.bytes 6 6
  dst_mac ← bytes_at f.bytes 0 6
  let seen = (src_mac, port) ∷ a.seen
  some (
      if f.nb_tx == 0
      then record a { seen = seen; freed = a.freed ++ (f.mbuf ∷ []) }
      else record a { seen = seen; sent = a.sent ++ ((best_port seen port dst_mac, f.mbuf) ∷ []) })

unfoldable pub history_frames : History → ℕ → List Frame → Option History
history_frames a port [] = some a
history_frames a port (f ∷ fs) = do a' ← history_frame a port f; history_frames a' port fs

unfoldable pub history_loop : History → List Burst → Option History
history_loop a [] = some a
history_loop a (b ∷ bs) = do a' ← history_frames a b.port b.frames; history_loop a' bs

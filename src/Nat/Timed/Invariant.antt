-- ===== src/Nat/Timed/Invariant.antt =====
-- The invariant of NAT/Nat_with_TIMER/nwt.c.
use dpdk_code.Base.{ℕ, ◌+◌, ◌*◌, ◌≤◌, ◌≡◌, some, ℕ_discrete, is_some}
use dpdk_code.Nat.Linked.{Linked}
use dpdk_code.Nat.Timed.{Services, State, Entry, NatKey, public_ip}

unfoldable pub NatKey-discrete : Discrete NatKey
NatKey-discrete = hlevel ℕ_discrete

pub record IsEntry (e : Entry) : Type 0 where
  pub public : e.public_ip ≡ public_ip
  pub private_ip : e.private_ip ≡ e.key.ip
  pub private_port : e.private_port ≡ e.key.port

-- The table is in step with the heap, no two entries share a public port, exactly the live entries
-- have a pending timer, and every timer runs out at most five seconds after the last packet and
-- the `slack` that the program took to arm it.
pub record IsValid {T C : Type 0} (sv : Services T C) (slack : ℕ) (s : State T C) : Type 0 where
  pub linked : Linked sv.table.hash (λ (e : Entry). e.key) s.nat_table s.heap
  pub entries : (p : ℕ) (e : Entry) → s.heap p ≡ some e → IsEntry e
  pub ports :
      (p q : ℕ) (e f : Entry)
      → s.heap p ≡ some e
      → s.heap q ≡ some f
      → e.public_port ≡ f.public_port
      → p ≡ q
  pub armed : (p : ℕ) → is_some (sv.timer.deadline s.timers p) ≡ is_some (s.heap p)
  pub soon :
      (p d : ℕ) → sv.timer.deadline s.timers p ≡ some d → d ≤ s.global_last_pkt + slack + 5 * s.hz

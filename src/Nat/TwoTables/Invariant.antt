-- ===== src/Nat/TwoTables/Invariant.antt =====
-- The invariant of NAT/NAT_twoTables/main.c, and the keys as data with a decidable equality.
use dpdk_code.Base.{ℕ, ◌≡◌, some, ℕ_discrete, is_some}
use dpdk_code.Nat.Linked.{Linked}
use dpdk_code.Nat.TwoTables.{Services, State, Entry, FwdKey, RevKey, public_ip}

unfoldable pub FwdKey-discrete : Discrete FwdKey
FwdKey-discrete = hlevel ℕ_discrete

unfoldable pub RevKey-discrete : Discrete RevKey
RevKey-discrete = hlevel ℕ_discrete

-- What an entry says of itself: its reverse key has its public address and port, with any padding,
-- and it stands for the source of its flow.
pub record IsEntry (e : Entry) : Type 0 where
  pub rev : e.rev ≡ record { public_ip = e.public_ip; public_port = e.public_port; pad = e.rev.pad }
  pub public : e.public_ip ≡ public_ip
  pub private_ip : e.private_ip ≡ e.fwd.src_ip
  pub private_port : e.private_port ≡ e.fwd.src_port

-- Both tables are in step with the heap, no two live entries have one public port, and exactly the
-- live entries have a pending timer.
pub record IsValid {F R T : Type 0} (sv : Services F R T) (s : State F R T) : Type 0 where
  pub fwd : Linked sv.fwd (λ (e : Entry). e.fwd) s.fwd_table s.heap
  pub rev : Linked sv.rev (λ (e : Entry). e.rev) s.rev_table s.heap
  pub entries : (p : ℕ) (e : Entry) → s.heap p ≡ some e → IsEntry e
  pub ports :
      (p q : ℕ) (e f : Entry)
      → s.heap p ≡ some e
      → s.heap q ≡ some f
      → e.public_port ≡ f.public_port
      → p ≡ q
  pub armed : (p : ℕ) → is_some (sv.timer.deadline s.timers p) ≡ is_some (s.heap p)

-- ===== src/Nat/SingleTable/Invariant.antt =====
-- The invariant of NAT/main.c: one entry for each key, one key for each entry, one public port for
-- each entry.
use dpdk_code.Base.{ℕ, ◌≡◌, some, ℕ_discrete}
use dpdk_code.Dpdk.Hash.{IterOps}
use dpdk_code.Nat.SingleTable.{State, Entry, NatKey, public_ip}

unfoldable pub NatKey-discrete : Discrete NatKey
NatKey-discrete = hlevel ℕ_discrete

-- The entry `e` is the one that the packets with the key `k` make.
pub record IsFlow (k : NatKey) (e : Entry) : Type 0 where
  pub private_ip : e.private_ip ≡ k.ip
  pub private_port : e.private_port ≡ k.port
  pub dest_ip : e.dest_ip ≡ k.dst_ip
  pub dest_port : e.dest_port ≡ k.dst_port
  pub public : e.public_ip ≡ public_ip

pub record IsValid {T : Type 0} (it : IterOps T NatKey ℕ) (s : State T) : Type 0 where
  pub live :
      (k : NatKey) (p : ℕ)
      → it.hash.lookup s.nat_table k ≡ some p
      → (e : Entry) × (s.heap p ≡ some e) × IsFlow k e
  pub owned :
      (p : ℕ) (e : Entry)
      → s.heap p ≡ some e
      → (k : NatKey) × (it.hash.lookup s.nat_table k ≡ some p)
  pub single :
      (k k' : NatKey) (p : ℕ)
      → it.hash.lookup s.nat_table k ≡ some p
      → it.hash.lookup s.nat_table k' ≡ some p
      → k ≡ k'
  pub ports :
      (p q : ℕ) (e f : Entry)
      → s.heap p ≡ some e
      → s.heap q ≡ some f
      → e.public_port ≡ f.public_port
      → p ≡ q

-- ===== src/L2fwd/Examples.antt =====
-- l2fwd/ on concrete bursts.
use dpdk_code.Base.{
  ℕ, ◌+◌, ◌≡◌, inl, inr, refl, Option, none, some, List, [], ◌∷◌, ◌++◌, count, arith, done,
  ℕ_discrete,
}
use dpdk_code.Dpdk.Hash.{HashOps}
use dpdk_code.Dpdk.Models.Table.{table, table_laws, put}
use dpdk_code.Parsing.{bytes_at}
use dpdk_code.Threaded.{unsent}
use dpdk_code.L2fwd.Forward.{Ports, forward, main_loop, dst_port}
use dpdk_code.L2fwd.Forward.Crossing.{IsCrossed, main_loop-IsCrossed}
use dpdk_code.L2fwd.Switch.{State, Burst, learn, out_port, switch_frame, switch_frames, switch_loop}
use dpdk_code.L2fwd.Switch.History.{Mac-discrete, History, last_port, history_loop}
use dpdk_code.L2fwd.Switch.Learning.{Refines, AllReady}
use dpdk_code.L2fwd.Switch.Conservation.{handled, burst_mbufs, switch_loop_exact}

program : Unit {0}
unfolding bytes_at unsent forward main_loop dst_port learn out_port switch_frame switch_frames
    switch_loop put Mac-discrete ℕ_discrete last_port
program = tt

abbrev quiet : Ports
quiet = record { received = λ q. []; sent = λ q. []; freed = [] }

abbrev bursts : List dpdk_code.L2fwd.Forward.Burst
bursts =
    (record { port = 0; bufs = 1 ∷ 2 ∷ 3 ∷ []; nb_tx = 2 })
    ∷ (record { port = 1; bufs = 4 ∷ []; nb_tx = 1 })
    ∷ []

main_loop-IsCrossed_example : IsCrossed (main_loop quiet bursts)
main_loop-IsCrossed_example =
    main_loop-IsCrossed bursts quiet
      (
        record { port = inl refl; nb_tx = omega arith },
        (record { port = inr refl; nb_tx = omega arith }, tt),
      )
      (record { conserved = λ p. refl; from0 = done; from1 = done })

bursts_freed : (main_loop quiet bursts).freed ≡ 3 ∷ []
unfolding program
bursts_freed = refl

abbrev mac_a : List ℕ
mac_a = 2 ∷ 0 ∷ 0 ∷ 0 ∷ 0 ∷ 1 ∷ []

abbrev mac_b : List ℕ
mac_b = 2 ∷ 0 ∷ 0 ∷ 0 ∷ 0 ∷ 2 ∷ []

abbrev St : Type 0
St = State (List ℕ → Option ℕ)

abbrev hash : HashOps (List ℕ → Option ℕ) (List ℕ) ℕ
hash = table Mac-discrete

abbrev empty : St
empty = record { l2_hash = λ mac. none; sent = []; freed = [] }

abbrev no_history : History
no_history = record { seen = []; sent = []; freed = [] }

-- A host at port 1 greets one at port 0, which answers.
abbrev greeting : List Burst
greeting =
    (record { port = 1; frames = (record { mbuf = 1; bytes = mac_b ++ mac_a; nb_tx = 1 }) ∷ [] })
    ∷ (record { port = 0; frames = (record { mbuf = 2; bytes = mac_a ++ mac_b; nb_tx = 0 }) ∷ [] })
    ∷ []

empty-Refines : Refines hash empty no_history
unfolding last_port
empty-Refines = record {
  table = λ mac. refl;
  ports = λ mac p at. absurd (ground arith);
  sent = refl;
  freed = refl;
}

greeting_ready : AllReady hash empty greeting
greeting_ready = (
  omega arith,
  ((omega arith, λ mac at. (_, refl)), λ s' ran. tt),
  λ s' ran. (omega arith, ((omega arith, λ mac at. (_, refl)), λ s'' ran'. tt), λ s'' ran'. tt),
)

switch_loop_exact_example :
    (s' : St) × (a' : History) × (switch_loop hash empty greeting ≡ some s')
    × (history_loop no_history greeting ≡ some a')
    × Refines hash s' a'
    × ((p : ℕ) → handled p s' ≡ handled p empty + count p (burst_mbufs greeting))
switch_loop_exact_example =
    switch_loop_exact hash (table_laws Mac-discrete) empty no_history greeting empty-Refines
      greeting_ready

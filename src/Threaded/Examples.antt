-- ===== src/Threaded/Examples.antt =====
-- ThreadedParsing/ on rings with room for two packets: of three packets, one is freed.
use dpdk_code.Base.{◌≤◌, ◌⊎◌, count, ℕ, ◌≡◌, refl, List, [], ◌∷◌, arith}
use dpdk_code.Dpdk.Models.Queue.{queue, queue_laws}
use dpdk_code.Threaded.{
  State, unsent, rx_receive, rx_forward, parser_dequeue, parser_forward, tx_dequeue, tx_send,
}
use dpdk_code.Threaded.Steps.{
  receive, forward, fetch, parse, collect, send, Reach, here, next, IsStart,
}
use dpdk_code.Threaded.Conservation.{places, Reach-IsConserved}
use dpdk_code.Threaded.Drain.{
  QuietRun, rest, more, moves, load, CanMove, IsSettled, quiet_run_settles,
}
use dpdk_code.Threaded.Launch.{rx_handler, parser, tx_handler, launch, running, running-launch}
use dpdk_code.Threaded.Printing.{IsPrinted, Reach-IsPrinted}

abbrev start : State (List ℕ)
start = record {
  rx_ring = [];
  tx_ring = [];
  rx_buff = [];
  parser_buff = [];
  tx_buff = [];
  received = [];
  sent = [];
  freed = [];
  printed = [];
}

abbrev bytes : ℕ → List ℕ
bytes m = []

start-IsStart : IsStart (queue 2) start
start-IsStart = record {
  rx_ring = refl;
  tx_ring = refl;
  rx_buff = refl;
  parser_buff = refl;
  tx_buff = refl;
  received = refl;
  sent = refl;
  freed = refl;
}

abbrev s1 : State (List ℕ)
s1 = rx_forward (queue 2) (rx_receive (queue 2) start (1 ∷ 2 ∷ 3 ∷ []))

abbrev s2 : State (List ℕ)
s2 = parser_forward (queue 2) bytes (parser_dequeue (queue 2) s1)

abbrev s3 : State (List ℕ)
s3 = tx_send (queue 2) (tx_dequeue (queue 2) s2) 1

program : Unit {0}
unfolding unsent rx_receive rx_forward parser_dequeue parser_forward tx_dequeue tx_send
program = tt

s3_sent : s3.sent ≡ 1 ∷ []
unfolding program
s3_sent = refl

s3_freed : s3.freed ≡ 3 ∷ 2 ∷ []
unfolding program
s3_freed = refl

s3_reached : Reach (queue 2) bytes start s3
unfolding program
s3_reached =
    next
      (next
        (next
          (next (next (next here (receive (1 ∷ 2 ∷ 3 ∷ []) refl (omega arith))) forward)
            (fetch refl))
          parse)
        (collect refl))
      (send 1 (omega arith))

Reach-IsConserved_example : count 3 s3.received ≡ places (queue 2) (queue_laws 2) bytes 3 s3
Reach-IsConserved_example =
    Reach-IsConserved (queue 2) (queue_laws 2) bytes start-IsStart s3_reached 3

Reach-IsPrinted_example : (parsed : List ℕ) × IsPrinted (queue 2) (queue_laws 2) bytes s3 parsed
Reach-IsPrinted_example =
    Reach-IsPrinted (queue 2) (queue_laws 2) bytes start-IsStart refl s3_reached

s1_reached : Reach (queue 2) bytes start s1
s1_reached = next (next here (receive (1 ∷ 2 ∷ 3 ∷ []) refl (omega arith))) forward

s2_from_s1 : QuietRun (queue 2) (queue_laws 2) bytes s1 s2
unfolding program
s2_from_s1 = more (more rest (fetch refl) refl) parse refl

quiet_run_settles_example :
    (moves (queue 2) (queue_laws 2) bytes s2_from_s1 ≤ load (queue 2) (queue_laws 2) bytes s1)
    × (CanMove (queue 2) (queue_laws 2) bytes s2 ⊎ IsSettled (queue 2) (queue_laws 2) bytes s2)
quiet_run_settles_example =
    quiet_run_settles (queue 2) (queue_laws 2) bytes start-IsStart s1_reached s2_from_s1

four_workers :
    (running rx_handler (launch (1 ∷ 2 ∷ 3 ∷ 4 ∷ [])) ≡ 1)
    × (running parser (launch (1 ∷ 2 ∷ 3 ∷ 4 ∷ [])) ≡ 1)
    × (running tx_handler (launch (1 ∷ 2 ∷ 3 ∷ 4 ∷ [])) ≡ 1)
four_workers = running-launch (1 ∷ 2 ∷ 3 ∷ 4 ∷ [])

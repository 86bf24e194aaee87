-- ===== src/Threaded/Launch.antt =====
-- ThreadedParsing/main.c: which loop is launched on which core.
use dpdk_code.Base.{
  ℕ, suc, ◌≡◌, Bool, true, false, List, [], ◌∷◌, ◌++◌, ◌==◌, if◌then◌else◌, count, refl, arith,
}

pub data Role : Type 0 where
  rx_handler parser tx_handler : Role

abbrev same : Role → Role → Bool
same rx_handler rx_handler = true
same parser parser = true
same tx_handler tx_handler = true
same _ _ = false

-- What is launched on one worker core.
abbrev pub launch_on : ℕ → List (ℕ × Role)
launch_on lcore_id =
    if lcore_id == 1
    then (lcore_id, rx_handler) ∷ []
    else if lcore_id == 2
    then (lcore_id, parser) ∷ []
    else if lcore_id == 3
    then (lcore_id, tx_handler) ∷ []
    else []

-- The loop over the worker cores.
unfoldable pub launch : List ℕ → List (ℕ × Role)
launch [] = []
launch (lcore_id ∷ rest) = launch_on lcore_id ++ launch rest

-- The number of cores that run a loop.
abbrev pub running : Role → List (ℕ × Role) → ℕ
running r [] = 0
running r ((lcore_id, q) ∷ rest) = if same r q then suc (running r rest) else running r rest

-- For any worker cores, main of ThreadedParsing/main.c launches rx_handler, parser and tx_handler
-- on as many cores as have the number 1, 2 and 3: on one core each, if these are workers, and on
-- none else.
pub running-launch :
    (workers : List ℕ)
    → (running rx_handler (launch workers) ≡ count 1 workers)
      × (running parser (launch workers) ≡ count 2 workers)
      × (running tx_handler (launch workers) ≡ count 3 workers)
unfolding launch
running-launch [] = (refl, refl, refl)
running-launch (lcore_id ∷ rest) = ground (arith, running-launch rest)

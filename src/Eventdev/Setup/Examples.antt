-- ===== src/Eventdev/Setup/Examples.antt =====
-- The set-up of Eventdev/Parsing/main.c with three worker cores.
use dpdk_code.Base.{ℕ, ◌≡◌, ◌≢◌, List, [], ◌∷◌, some, refl}
use dpdk_code.Dpdk.Models.Card.{Card, card, closed}
use dpdk_code.Dpdk.Models.EventPorts.{event_ports, event_ports_laws}
use dpdk_code.Eventdev.Setup.{
  Stage, Reason, Started, exits, no_eventdev, event_port_setup, port_init, setup_ports,
  eventdev_init, main,
}
use dpdk_code.Eventdev.Setup.Exits.{main_exits}

abbrev run : List ℕ → Stage (Started Card (ℕ → ℕ))
run workers =
    main event_ports (card 7) 128 (some 5) workers 1 0 closed ((λ (k : ℕ). 0), (λ (k : ℕ). 0))

main_exits_example : (r : Reason) × (r ≢ no_eventdev) × (run (1 ∷ 2 ∷ 3 ∷ []) ≡ exits r)
main_exits_example =
    main_exits event_ports event_ports_laws (card 7) 128 (some 5) 1 (2 ∷ 3 ∷ []) 1 0 closed
      (λ (k : ℕ). 0) (λ (k : ℕ). 0)

third_port_refused : run (1 ∷ 2 ∷ 3 ∷ []) ≡ exits event_port_setup
unfolding main port_init eventdev_init setup_ports
third_port_refused = refl

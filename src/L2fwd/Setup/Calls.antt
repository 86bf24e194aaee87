-- ===== src/L2fwd/Setup/Calls.antt =====
-- The calls that port_init and the loop over the ports make in the programs of l2fwd/, and the first
-- that fails.
use dpdk_code.Base.{
  ℕ, zero, suc, ◌≡◌, ◌≢◌, ◌⊎◌, inl, inr, refl, arith, ==_iff, ◌==◌, ℕ_discrete, Bool-cases,
}
use dpdk_code.Dpdk.Ethernet.{EthOps}
use dpdk_code.L2fwd.Setup.{Outcome, forwards, exits, port_failed, port_init, init_ports}

module _ {D : Type 0} (eth : EthOps D) (p : ℕ) (d : D) where
  -- The devices after each call.
  abbrev pub configured : D
  configured = (eth.configure d p 1 1).1

  abbrev pub receiving : D
  receiving = (eth.rx_queue_setup configured p).1

  abbrev pub sending : D
  sending = (eth.tx_queue_setup receiving p).1

  abbrev pub running : D
  running = (eth.dev_start sending p).1

  -- All four calls that are checked return 0, and promiscuous mode is asked for.
  abbrev pub Passed : D → Type 0
  Passed d' =
      ((eth.configure d p 1 1).0 ≡ 0)
      × ((eth.rx_queue_setup configured p).0 ≡ 0)
      × ((eth.tx_queue_setup receiving p).0 ≡ 0)
      × ((eth.dev_start sending p).0 ≡ 0)
      × (d' ≡ (eth.promiscuous_enable running p).1)

  -- One of the four fails, and no other is made after it.
  abbrev pub Failed : D → Type 0
  Failed d' =
      (((eth.configure d p 1 1).0 ≢ 0) × (d' ≡ configured))
      ⊎ (((eth.configure d p 1 1).0 ≡ 0)
          × ((eth.rx_queue_setup configured p).0 ≢ 0)
          × (d' ≡ receiving))
      ⊎ (((eth.configure d p 1 1).0 ≡ 0)
          × ((eth.rx_queue_setup configured p).0 ≡ 0)
          × ((eth.tx_queue_setup receiving p).0 ≢ 0)
          × (d' ≡ sending))
      ⊎ (((eth.configure d p 1 1).0 ≡ 0)
          × ((eth.rx_queue_setup configured p).0 ≡ 0)
          × ((eth.tx_queue_setup receiving p).0 ≡ 0)
          × ((eth.dev_start sending p).0 ≢ 0)
          × (d' ≡ running))

  port_init-cases :
      (((port_init eth d p).0 ≡ 0) × Passed (port_init eth d p).1)
      ⊎ (((port_init eth d p).0 ≢ 0) × Failed (port_init eth d p).1)
  unfolding port_init
  port_init-cases = elim (ℕ_discrete (eth.configure d p 1 1).0 0) [
    | no h1 ↦ inr (ground arith)
    | yes h1 ↦ elim (ℕ_discrete (eth.rx_queue_setup configured p).0 0) [
      | no h2 ↦ inr (ground arith)
      | yes h2 ↦ elim (ℕ_discrete (eth.tx_queue_setup receiving p).0 0) [
        | no h3 ↦ inr (ground arith)
        | yes h3 ↦ elim (ℕ_discrete (eth.dev_start sending p).0 0) [
          | no h4 ↦ inr (ground arith)
          | yes h4 ↦ inl (ground arith)
        ]
      ]
    ]
  ]

module _ {D : Type 0} (eth : EthOps D) where
  -- What is called for `n` ports from `low` on, and how that ends.
  abbrev pub Calls : ℕ → ℕ → D → Outcome D → Type 0
  Calls zero low d o = o ≡ forwards d
  Calls (suc n) low d o =
      ((d' : D) × Failed eth low d d' × (o ≡ exits (port_failed low) d'))
      ⊎ ((d' : D) × Passed eth low d d' × Calls n (suc low) d' o)

  pub init_ports-Calls : (n low : ℕ) (d : D) → Calls n low d (init_ports eth n low d)
  unfolding init_ports
  init_ports-Calls zero low d = refl
  init_ports-Calls (suc n) low d = elim (port_init-cases eth low d) [
    | inl (ok, passed) ↦ rw ((==_iff (port_init eth d low).0 0).1 ok) (
        inr ((port_init eth d low).1, passed, init_ports-Calls n (suc low) (port_init eth d low).1))
    | inr (failed, call) ↦ elim (Bool-cases ((port_init eth d low).0 == 0)) [
      | inl ok ↦ absurd (failed ((==_iff (port_init eth d low).0 0).0 ok))
      | inr other ↦ rw other (inl ((port_init eth d low).1, call, refl))
    ]
  ]

-- ===== src/L2fwd/Setup/Ready.antt =====
-- What holds when the programs of l2fwd/ enter their loops.
use dpdk_code.Base.{
  ℕ, zero, suc, Option, none, some, ◌+◌, ◌≤◌, ◌<◌, ◌≡◌, ◌≢◌, true, false, arith, Bool-cases, inl,
  inr, ◌∙◌, sym, ap, ◌==◌, refl, ==_iff, Bool, dec_lt, subst, if◌then◌else◌, not,
}
use dpdk_code.Dpdk.Ethernet.{EthOps, EthLaws, Port}
use dpdk_code.L2fwd.Setup.Calls.{Calls, init_ports-Calls}
use dpdk_code.L2fwd.Setup.{
  Outcome, exits, forwards, port_init, init_ports, forward_main, switch_main, eal_failed,
  wrong_port_count, no_pool, no_hash, port_failed,
}

abbrev pub ready : Port
ready = record { rx_queue = true; tx_queue = true; started = true }

abbrev pub device : {D : Type 0} → Outcome D → D
device (forwards d') = d'
device (exits r d') = d'

module _ {D : Type 0} (eth : EthOps D) where
  -- The ports from `low` on and below `high` are ready.
  abbrev pub ReadyBetween : ℕ → ℕ → D → Type 0
  ReadyBetween low high d = (q : ℕ) → low ≤ q → q < high → eth.port d q ≡ ready

  -- After the loop over `n` ports from `low` on: all are ready, or one failed, was not started by
  -- this, and those before it are ready.
  abbrev pub PortsInit : ℕ → ℕ → D → Outcome D → Type 0
  PortsInit n low d (forwards d') = ReadyBetween low (low + n) d'
  PortsInit n low d (exits (port_failed p) d') =
      (low ≤ p)
      × (p < low + n)
      × ReadyBetween low p d'
      × ((eth.port d' p).started ≡ (eth.port d p).started)
  PortsInit n low d (exits r d') = ⊥

  -- What an outcome of `main` says about the calls before it. `pool` and `hash` are what was created.
  abbrev pub SetUp : ℕ → ℕ → Option ℕ → Option ℕ → D → Outcome D → Type 0
  SetUp eal nb_ports pool hash d (forwards d') =
      (eal ≡ 0)
      × (nb_ports ≡ 2)
      × (pool ≢ none)
      × (hash ≢ none)
      × (eth.port d' 0 ≡ ready)
      × (eth.port d' 1 ≡ ready)
      × Calls eth 2 0 d (forwards d')
  SetUp eal nb_ports pool hash d (exits eal_failed d') = (eal ≢ 0) × (d' ≡ d)
  SetUp eal nb_ports pool hash d (exits (wrong_port_count k) d') =
      (k ≡ nb_ports) × (nb_ports ≢ 2) × (d' ≡ d)
  SetUp eal nb_ports pool hash d (exits no_pool d') = (pool ≡ none) × (d' ≡ d)
  SetUp eal nb_ports pool hash d (exits no_hash d') = (hash ≡ none) × (d' ≡ d)
  SetUp eal nb_ports pool hash d (exits (port_failed p) d') =
      (p < 2)
      × ReadyBetween 0 p d'
      × ((eth.port d' p).started ≡ (eth.port d p).started)
      × Calls eth 2 0 d (exits (port_failed p) d')

module _ {D : Type 0} (eth : EthOps D) (laws : EthLaws eth) where
  port_init-ready :
      (d : D) (p : ℕ) → (port_init eth d p).0 ≡ 0 → eth.port (port_init eth d p).1 p ≡ ready
  unfolding port_init
  port_init-ready d p h =
      let d1 = (eth.configure d p 1 1).1 in
      let d2 = (eth.rx_queue_setup d1 p).1 in
      let d3 = (eth.tx_queue_setup d2 p).1 in
      let d4 = (eth.dev_start d3 p).1 in
      ground (
        arith,
        laws.port-rx_queue_setup_self d1 p,
        laws.port-tx_queue_setup_self d2 p,
        laws.port-dev_start_self d3 p,
        laws.port-promiscuous_enable d4 p p,
      )

  started-port_init :
      (d : D) (p : ℕ)
      → (port_init eth d p).0 ≢ 0
      → (eth.port (port_init eth d p).1 p).started ≡ (eth.port d p).started
  unfolding port_init
  started-port_init d p h =
      let d1 = (eth.configure d p 1 1).1 in
      let d2 = (eth.rx_queue_setup d1 p).1 in
      let d3 = (eth.tx_queue_setup d2 p).1 in
      ground (
        arith,
        laws.started-configure d p 1 1,
        laws.started-rx_queue_setup d1 p,
        laws.started-tx_queue_setup d2 p,
        laws.started-dev_start_fails d3 p,
      )

  port_init-ne : (d : D) (p q : ℕ) → q ≢ p → eth.port (port_init eth d p).1 q ≡ eth.port d q
  unfolding port_init
  port_init-ne d p q h =
      let d1 = (eth.configure d p 1 1).1 in
      let d2 = (eth.rx_queue_setup d1 p).1 in
      let d3 = (eth.tx_queue_setup d2 p).1 in
      let d4 = (eth.dev_start d3 p).1 in
      ground (
        arith,
        laws.port-configure_ne d p 1 1 q h,
        laws.port-rx_queue_setup_ne d1 p q h,
        laws.port-tx_queue_setup_ne d2 p q h,
        laws.port-dev_start_ne d3 p q h,
        laws.port-promiscuous_enable d4 p q,
      )

  init_ports-ne :
      (n low : ℕ) (d : D) (q : ℕ)
      → q < low
      → eth.port (device (init_ports eth n low d)) q ≡ eth.port d q
  unfolding init_ports
  init_ports-ne zero low d q h = refl
  init_ports-ne (suc n) low d q h =
      let d' = (port_init eth d low).1 in
      let others = port_init-ne d low q (omega arith) in
      elim (Bool-cases ((port_init eth d low).0 == 0)) [
        | inl e ↦ rw e (init_ports-ne n (suc low) d' q (omega arith) ∙ others)
        | inr e ↦ rw e others
      ]

  init_ports-PortsInit : (n low : ℕ) (d : D) → PortsInit eth n low d (init_ports eth n low d)
  unfolding init_ports
  init_ports-PortsInit zero low d = λ q h g. absurd (omega arith)
  init_ports-PortsInit (suc n) low d =
      let d' = (port_init eth d low).1 in
      elim (Bool-cases ((port_init eth d low).0 == 0)) [
        | inl e ↦ rw e (
            extended n low d d' (init_ports eth n (suc low) d')
              (port_init-ready d low ((==_iff _ _).0 e)) (λ q h. port_init-ne d low q (omega arith))
              (init_ports-ne n (suc low) d' low (omega arith))
              (init_ports-PortsInit n (suc low) d'))
        | inr e ↦ rw e (
          omega arith,
          omega arith,
          λ q h g. absurd (omega arith),
          started-port_init d low (λ z. false-ne-true (sym e ∙ (==_iff _ _).1 z)),
        )
      ]
    where
      false-ne-true : ¬ (◌≡◌ {A = Bool} false true)
      false-ne-true h = cc

      extended :
          (n low : ℕ) (d d' : D) (o : Outcome D)
          → eth.port d' low ≡ ready
          → ((q : ℕ) → low < q → eth.port d' q ≡ eth.port d q)
          → eth.port (device o) low ≡ eth.port d' low
          → PortsInit eth n (suc low) d' o
          → PortsInit eth (suc n) low d o
      extended n low d d' (forwards c) now others kept later = λ q h g. elim (dec_lt low q) [
        | yes above ↦ later q (omega arith) (omega arith)
        | no at ↦ subst (λ z. eth.port c z ≡ ready) (omega arith) (kept ∙ now)
      ]
      extended n low d d' (exits (port_failed p) c) now others kept (a, b, between, as_was) = (
        omega arith,
        omega arith,
        λ q h g. elim (dec_lt low q) [
          | yes above ↦ between q (omega arith) g
          | no at ↦ subst (λ z. eth.port c z ≡ ready) (omega arith) (kept ∙ now)
        ],
        as_was ∙ ap (λ (z : Port). z.started) (others p (omega arith)),
      )
      extended n low d d' (exits eal_failed c) now others kept later = later
      extended n low d d' (exits (wrong_port_count k) c) now others kept later = later
      extended n low d d' (exits no_pool c) now others kept later = later
      extended n low d d' (exits no_hash c) now others kept later = later

  PortsInit-SetUp :
      (eal nb_ports a b : ℕ) (d : D) (o : Outcome D)
      → eal ≡ 0
      → nb_ports ≡ 2
      → PortsInit eth nb_ports 0 d o
      → Calls eth nb_ports 0 d o
      → SetUp eth eal nb_ports (some a) (some b) d o
  PortsInit-SetUp eal n a b d (forwards c) e two h calls = (
    e,
    two,
    λ z. cc,
    λ z. cc,
    h 0 (omega arith) (omega arith),
    h 1 (omega arith) (omega arith),
    subst (λ k. Calls eth k 0 d (forwards c)) two calls,
  )
  PortsInit-SetUp eal n a b d (exits (port_failed p) c) e two (h1, h2, h3, h4) calls =
      (omega arith, h3, h4, subst (λ k. Calls eth k 0 d (exits (port_failed p) c)) two calls)
  PortsInit-SetUp eal n a b d (exits eal_failed c) e two h calls = absurd h
  PortsInit-SetUp eal n a b d (exits (wrong_port_count k) c) e two h calls = absurd h
  PortsInit-SetUp eal n a b d (exits no_pool c) e two h calls = absurd h
  PortsInit-SetUp eal n a b d (exits no_hash c) e two h calls = absurd h

  checked-SetUp :
      (eal nb_ports : ℕ) (pool hash : Option ℕ) (d : D) (rest : Outcome D)
      → (eal ≡ 0 → nb_ports ≡ 2 → SetUp eth eal nb_ports pool hash d rest)
      → SetUp eth eal nb_ports pool hash d (
          if not (eal == 0)
          then exits eal_failed d
          else if not (nb_ports == 2)
          then exits (wrong_port_count nb_ports) d
          else rest)
  checked-SetUp eal n pool hash d rest h = elim (Bool-cases (eal == 0)) [
    | inr e ↦ rw e (λ z. absurd (ground arith), refl)
    | inl e ↦ elim (Bool-cases (n == 2)) [
      | inr two ↦ rw (e, two) (refl, λ z. absurd (ground arith), refl)
      | inl two ↦ rw (e, two) (h ((==_iff eal 0).0 e) ((==_iff n 2).0 two))
    ]
  ]

  pub forward_main-SetUp :
      (eal nb_ports table : ℕ) (pool : Option ℕ) (d : D)
      → SetUp eth eal nb_ports pool (some table) d (forward_main eth eal nb_ports pool d)
  unfolding forward_main
  forward_main-SetUp eal n t none d =
      checked-SetUp eal n none (some t) d (exits no_pool d) (λ e two. (refl, refl))
  forward_main-SetUp eal n t (some m) d =
      checked-SetUp eal n (some m) (some t) d (init_ports eth n 0 d) (λ e two.
        PortsInit-SetUp eal n m t d (init_ports eth n 0 d) e two (init_ports-PortsInit n 0 d)
          (init_ports-Calls eth n 0 d))

  pub switch_main-SetUp :
      (eal nb_ports : ℕ) (pool hash : Option ℕ) (d : D)
      → SetUp eth eal nb_ports pool hash d (switch_main eth eal nb_ports pool hash d)
  unfolding switch_main
  switch_main-SetUp eal n none hash d =
      checked-SetUp eal n none hash d (exits no_pool d) (λ e two. (refl, refl))
  switch_main-SetUp eal n (some m) none d =
      checked-SetUp eal n (some m) none d (exits no_hash d) (λ e two. (refl, refl))
  switch_main-SetUp eal n (some m) (some t) d =
      checked-SetUp eal n (some m) (some t) d (init_ports eth n 0 d) (λ e two.
        PortsInit-SetUp eal n m t d (init_ports eth n 0 d) e two (init_ports-PortsInit n 0 d)
          (init_ports-Calls eth n 0 d))

  -- What the outcomes of the set-ups of l2fwd/main.c and l2fwd/veth_peer/main.c say. When the
  -- forwarding loop is entered, EAL came up, there are two ports, the pool (and in veth_peer the
  -- table) was created, for port 0 and then port 1 the calls that configure, set up both queues
  -- and start returned 0, and both ports are started with both queues. Each exit names its cause:
  -- EAL failed, a number of ports that is not 2, no pool, no table, with the devices as they were;
  -- or a port, for which one of these four calls returned another value than 0 after the calls
  -- before it had returned 0, and which this did not start, with the ports before it ready and no
  -- call made after the failing one. The first program creates no table, and its outcome is as
  -- with any table. The devices keep the documented laws of rte_ethdev.
  pub mains-SetUp :
      (eal nb_ports table : ℕ) (pool hash : Option ℕ) (d : D)
      → SetUp eth eal nb_ports pool (some table) d (forward_main eth eal nb_ports pool d)
        × SetUp eth eal nb_ports pool hash d (switch_main eth eal nb_ports pool hash d)
  mains-SetUp eal n t pool hash d =
      (forward_main-SetUp eal n t pool d, switch_main-SetUp eal n pool hash d)

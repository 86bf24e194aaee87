-- ===== src/L2fwd/Setup.antt =====
-- l2fwd/main.c and l2fwd/veth_peer/main.c before their loops: `port_init` and `main`.
pub mod Calls
pub mod Ready
pub mod Examples
use dpdk_code.Base.{ℕ, zero, suc, Option, none, some, ◌==◌, if◌then◌else◌, not}
use dpdk_code.Dpdk.Ethernet.{EthOps}

-- The messages of rte_exit.
pub data Reason : Type 0 where
  eal_failed : Reason
  wrong_port_count : ℕ → Reason
  no_pool no_hash : Reason
  port_failed : ℕ → Reason

-- What `main` comes to: an exit, or the forwarding loop on the main core with these devices.
pub data Outcome (D : Type 0) : Type 0 where
  exits : Reason → D → Outcome D
  forwards : D → Outcome D

module _ {D : Type 0} (eth : EthOps D) where
  -- The code that is returned, and the device.
  unfoldable pub port_init : D → ℕ → ℕ × D
  port_init d port =
      let (e1, d1) = eth.configure d port 1 1 in
      if not (e1 == 0)
      then (e1, d1)
      else let (e2, d2) = eth.rx_queue_setup d1 port in
        if not (e2 == 0)
        then (e2, d2)
        else let (e3, d3) = eth.tx_queue_setup d2 port in
          if not (e3 == 0)
          then (e3, d3)
          else let (e4, d4) = eth.dev_start d3 port in
            if not (e4 == 0) then (e4, d4) else (0, (eth.promiscuous_enable d4 port).1)

  -- The loop over the ports, from `portid` on with `n` ports to go.
  unfoldable pub init_ports : ℕ → ℕ → D → Outcome D
  init_ports zero portid d = forwards d
  init_ports (suc n) portid d =
      let (e, d') = port_init d portid in
      let rest = init_ports n (suc portid) d' in
      if e == 0 then rest else exits (port_failed portid) d'

  -- l2fwd/main.c. `eal` is the code of rte_eal_init, `pool` the result of
  -- rte_pktmbuf_pool_create, `none` for NULL.
  unfoldable pub forward_main : ℕ → ℕ → Option ℕ → D → Outcome D
  forward_main eal nb_ports pool d =
      if not (eal == 0)
      then exits eal_failed d
      else if not (nb_ports == 2)
      then exits (wrong_port_count nb_ports) d
      else elim pool [ none ↦ exits no_pool d | some mbuf_pool ↦ init_ports nb_ports 0 d ]

  -- l2fwd/veth_peer/main.c, whose port_init makes the same calls.
  abbrev pub peer_port_init : D → ℕ → ℕ × D
  peer_port_init d port = port_init d port

  unfoldable pub switch_main : ℕ → ℕ → Option ℕ → Option ℕ → D → Outcome D
  switch_main eal nb_ports pool hash d =
      if not (eal == 0)
      then exits eal_failed d
      else if not (nb_ports == 2)
      then exits (wrong_port_count nb_ports) d
      else elim pool [
        | none ↦ exits no_pool d
        | some mbuf_pool ↦ elim hash [
          | none ↦ exits no_hash d
          | some l2_hash ↦ init_ports nb_ports 0 d
        ]
      ]

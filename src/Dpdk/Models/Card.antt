-- ===== src/Dpdk/Models/Card.antt =====
-- Ports that obey at once, but for one that does not start.
use dpdk_code.Base.{ℕ, true, false, ◌==◌, if◌then◌else◌, refl, arith}
use dpdk_code.Dpdk.Ethernet.{Port, EthOps, EthLaws}

abbrev pub Card : Type 0
Card = ℕ → Port

abbrev pub closed : Card
closed p = record { rx_queue = false; tx_queue = false; started = false }

abbrev change : Card → ℕ → Port → Card
change d p new q = if q == p then new else d q

-- Starting `broken` returns -19.
abbrev pub card : ℕ → EthOps Card
card broken = record {
  configure = λ d p rx tx. (0, d);
  rx_queue_setup = λ d p. (0, change d p (record (d p) { rx_queue = true }));
  tx_queue_setup = λ d p. (0, change d p (record (d p) { tx_queue = true }));
  dev_start =
      λ d p. if p == broken then (19, d) else (0, change d p (record (d p) { started = true }));
  promiscuous_enable = λ d p. (0, d);
  port = λ d p. d p;
}

pub card_laws : (broken : ℕ) → EthLaws (card broken)
card_laws broken = record {
  started-configure = λ d p rx tx. refl;
  port-configure_ne = λ d p rx tx q h. refl;
  port-rx_queue_setup_self = λ d p h. ground arith;
  started-rx_queue_setup = λ d p. ground arith;
  port-rx_queue_setup_ne = λ d p q h. ground arith;
  port-tx_queue_setup_self = λ d p h. ground arith;
  started-tx_queue_setup = λ d p. ground arith;
  port-tx_queue_setup_ne = λ d p q h. ground arith;
  port-dev_start_self = λ d p h. ground arith;
  started-dev_start_fails = λ d p h. ground arith;
  port-dev_start_ne = λ d p q h. ground arith;
  port-promiscuous_enable = λ d p q. refl;
}

-- ===== src/L2fwd/Setup/Examples.antt =====
-- Set-ups of l2fwd/ on a card whose port 1 does not start, and on one that works.
use dpdk_code.Base.{◌≡◌, none, some, refl}
use dpdk_code.Dpdk.Models.Card.{card, card_laws, closed}
use dpdk_code.L2fwd.Setup.{
  exits, forwards, port_failed, port_init, init_ports, forward_main, switch_main,
}
use dpdk_code.L2fwd.Setup.Ready.{SetUp, device, mains-SetUp}

mains-SetUp_example :
    SetUp (card 1) 0 2 (some 8) (some 9) closed (forward_main (card 1) 0 2 (some 8) closed)
    × SetUp (card 1) 0 2 (some 8) none closed (switch_main (card 1) 0 2 (some 8) none closed)
mains-SetUp_example = mains-SetUp (card 1) (card_laws 1) 0 2 9 (some 8) none closed

broken_exits :
    forward_main (card 1) 0 2 (some 8) closed
    ≡ exits (port_failed 1) (device (forward_main (card 1) 0 2 (some 8) closed))
unfolding forward_main init_ports port_init
broken_exits = refl

works_forwards :
    switch_main (card 7) 0 2 (some 8) (some 9) closed
    ≡ forwards (device (switch_main (card 7) 0 2 (some 8) (some 9) closed))
unfolding switch_main init_ports port_init
works_forwards = refl

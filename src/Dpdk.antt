-- ===== src/Dpdk.antt =====
-- The services of DPDK that the programs call: what they are given, as interfaces.
pub mod Cmdline
pub mod Ethernet
pub mod Events
pub mod EventSetup
pub mod Hash
pub mod Mbuf
pub mod Iterate
pub mod Patterns
pub mod Ring
pub mod Timers
pub mod Models

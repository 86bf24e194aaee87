-- ===== src/Dpdk/Models.antt =====
-- Small implementations of the interfaces, which show that their laws can be met. The tests and
-- the examples run the programs on them.
pub mod Buffer
pub mod Card
pub mod Table
pub mod Words
pub mod Clock
pub mod Slots
pub mod Queue
pub mod Device
pub mod EventPorts

-- ===== src/L2fwd.antt =====
-- l2fwd/: the two programs that forward frames between two ports.
pub mod Forward
pub mod Switch
pub mod Setup
mod Examples

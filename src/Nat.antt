-- ===== src/Nat.antt =====
-- NAT/: the four network address translators of the repository, one module each.
pub mod Linked
pub mod TwoTables
pub mod SingleTable
pub mod Timed
pub mod Wire

-- ===== src/Examples.antt =====
-- Concrete runs of the operations, to which the theorems are applied.
pub mod Cluster
pub mod Passing
pub mod Guarding
pub mod Choosing
pub mod Delivering
pub mod Sweeping
pub mod Receiving
pub mod Measuring
pub mod Rolling

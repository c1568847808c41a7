-- ===== src/Capacity.antt =====
-- The capacity subsystem: what a profile records, what a request costs, and how many may run.
pub mod Profile
pub mod Cost
pub mod Budget
pub mod Identity
pub mod Controller

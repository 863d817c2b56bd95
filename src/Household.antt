-- ===== src/Household.antt =====
-- backend/app/models/household.py and backend/app/modules/households: households, memberships,
-- the repository over the two tables, and the service.
pub mod Model
pub mod Repository
pub mod Service
pub mod Counts
pub mod Invariant
pub mod Reach
pub mod Behaviour
pub mod Router
pub mod Retry
pub mod Examples

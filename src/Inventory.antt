-- ===== src/Inventory.antt =====
-- backend/app/models/inventory_item.py, backend/app/models/events.py and
-- backend/app/modules/inventory: items, the event log with undo, the repository and the service.
pub mod Model
pub mod Repository
pub mod Events
pub mod Service
pub mod Rows
pub mod Success
pub mod Undo
pub mod Restore
pub mod Effects
pub mod Refinement
pub mod Soundness
pub mod Router
pub mod Retry
pub mod Failure
pub mod Examples

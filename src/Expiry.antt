-- ===== src/Expiry.antt =====
-- backend/app/modules/expiry: shelf-life rules, urgency buckets and the expiry of a new item.
pub mod Rules
pub mod Urgency
pub mod Service
mod Examples

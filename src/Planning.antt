-- ===== src/Planning.antt =====
-- backend/app/modules/planning: the meal planner, the reservation of ingredients and the shopping list.
pub mod Model
pub mod Reservation
pub mod Scoring
pub mod Planner
pub mod Allocation
pub mod Refusal
pub mod Constraints
pub mod Choice
pub mod Best
pub mod Stock
mod Examples
pub mod Shopping
pub mod Recipes
pub mod Keys
pub mod Tables
pub mod Service
pub mod ShoppingService
pub mod Stored
pub mod Transactions
pub mod Router
mod ServiceExamples

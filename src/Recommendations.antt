-- ===== src/Recommendations.antt =====
-- backend/app/modules/recommendations: the scorer, the substitutions and the service.
pub mod Model
pub mod Scorer
pub mod Service
pub mod Bounds
pub mod Ranking
pub mod Top
mod Examples

-- ===== src/Routing.antt =====
-- uni_api/routing: the health of the routes.
pub mod Health
pub mod Weights
pub mod Plan
pub mod Affinity

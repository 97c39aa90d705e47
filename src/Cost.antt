-- ===== src/Cost.antt =====
-- internal/cost: the prices of tokens, and the service that adds costs to responses.
pub mod Pricing
pub mod OpenRouter
pub mod Tracking
pub mod Examples

-- ===== src/Ai.antt =====
-- src/ai: the gateway to the models, with its policy, its boundary and its providers' adapters.
pub mod CircuitBreaker
pub mod Requests
pub mod Prompts
pub mod Boundary
pub mod AdapterErrors
pub mod Fallback
pub mod Adapters
pub mod Ledger
pub mod Gateway

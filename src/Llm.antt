-- ===== src/Llm.antt =====
-- src/ltm/ai: the calls of the language model. Times are in milliseconds. All that a call can change
-- is one state, and a call that fails leaves what it has changed.
pub mod Breaker
pub mod Usage
pub mod Governor
pub mod Failures
pub mod Metrics
pub mod Gateway
pub mod Memory

-- ===== src/Tests.antt =====
-- The library at concrete inputs: a small database, and each theorem that has a condition at a place
-- where the condition holds.
mod Sample
mod Repository
mod Messages
mod UseCases
mod Receipts
mod Llm
mod Turns
mod Cards

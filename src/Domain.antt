-- ===== src/Domain.antt =====
-- src/ltm/domain: the enumerations, the task models and the state machine.
pub mod Enums
pub mod StateMachine
pub mod Models

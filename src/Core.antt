-- ===== src/Core.antt =====
-- packages/protocol-runner-core: plans, run statuses, reports and transitions. Pure code.
pub mod Paths
pub mod Validation
pub mod Types
pub mod StateMachine
pub mod Actions
pub mod Steps
pub mod Transitions
pub mod Completion

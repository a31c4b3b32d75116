-- ===== src/Provisioning.antt =====
-- Provisioning attempts: the immutable attempt state (app/services/provisioning_state.py) and the
-- service that stores it (app/services/provisioning_service.py).
pub mod State
pub mod Transition
pub mod Runs
pub mod Sessions
pub mod Service
pub mod Evolution
pub mod Blocks
pub mod Attempts
mod Tests
mod ServiceTests

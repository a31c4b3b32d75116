-- ===== src/Commands.antt =====
-- The durable command lifecycle: `CommandService` of app/services/command_service.py over the
-- queries of app/repositories/command_repository.py.
pub mod Defs
pub mod Submit
pub mod Rows
pub mod Lifecycle
pub mod Applied
pub mod Dated
pub mod Reserve
mod Tests

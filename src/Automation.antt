-- ===== src/Automation.antt =====
-- The automation engine: app/services/automation_service.py, the state updates of
-- app/services/device_service.py, app/events/bus.py, and the tasks that app/main.py starts for events.
pub mod Rules
pub mod Devices
pub mod Engine
pub mod Inputs
pub mod Draining
pub mod Places
pub mod Steps
pub mod Isolation
mod Tests

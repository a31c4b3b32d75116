-- ===== src/Structure.antt =====
-- The houses and what is in them: app/services/crud_service.py, the CRUD of app/services/device_service.py,
-- app/services/scene_service.py and app/services/automation_service.py, the repositories behind them, the
-- event log, and the routes of app/api/routes.py that read and change them.
pub mod Tables
pub mod Crud
pub mod Contents
pub mod Routes
pub mod Requests
pub mod Reads
pub mod Readers
pub mod Shown
pub mod Events
pub mod Keys
pub mod Chains
pub mod Bindings
pub mod DeviceBindings
pub mod Drops
pub mod Guarded
pub mod Safety
pub mod Kept
pub mod Memberships
pub mod Served
pub mod Views
pub mod Untouched
pub mod Dropped
pub mod Apart
pub mod Contained
pub mod Strangers
pub mod Tests

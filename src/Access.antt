-- ===== src/Access.antt =====
-- Who may do what in a house: app/security.py (roles), app/services/auth_service.py and
-- app/repositories/auth_repository.py.
pub mod Roles
pub mod Members
pub mod Owners
pub mod Sessions
pub mod Tokens
mod Tests

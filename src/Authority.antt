-- ===== src/Authority.antt =====
-- `ControlAuthority` of app/services/control_authority.py: the one conditional authority over
-- physical commands.
pub mod Defs
pub mod Grant
pub mod Closed
pub mod Staged
pub mod Fair
pub mod Evidence
pub mod Reserving
pub mod Concluding
pub mod Keeping
pub mod Later
pub mod Single
pub mod Permit
pub mod Limits
mod Tests

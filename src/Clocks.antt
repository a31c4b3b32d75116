-- ===== src/Clocks.antt =====
-- The two clocks: the dispatch clock (app/services/command_clock.py) and the conditional timing
-- machinery of physical control (app/services/control_clock.py).
pub mod Wall
pub mod CommandClock
pub mod CommandClockLaws
pub mod ControlClock
pub mod ControlClockLaws
pub mod WallFault
pub mod Fence
mod Tests

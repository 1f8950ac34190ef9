-- ===== src/Shifts.antt =====
-- modules/shifts: the rules of shifts, position sessions and the handoff to a vehicle.
pub mod Shift
pub mod PositionSession
pub mod Driving
pub mod Breaks
pub mod Store
pub mod Commands
mod Examples
mod DrivingExamples
mod BreakExamples
mod CommandExamples
mod AutoCloseExamples

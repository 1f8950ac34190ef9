-- ===== src/Reporting.antt =====
-- modules/reporting: the attendance of workers.
pub mod Attendance
mod Examples

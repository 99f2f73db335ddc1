-- ===== src/Time.antt =====
-- The calendar, the clock sources and the real-time clock (`src/time/`, `headers/time/`).
pub mod Calendar
pub mod Timespec
pub mod Clocks
pub mod PmTimer
pub mod Rtc
mod Tests

-- ===== src/Power.antt =====
-- src/ec200_power.c: power management.
pub mod Timer
pub mod RoundTrip
pub mod Commands
pub mod Echo

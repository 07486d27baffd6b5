-- ===== src/Sim.antt =====
-- src/ec200_sim.c: the SIM card.
pub mod Card
pub mod Codes

-- ===== src/Tests.antt =====
-- A scripted module on the other side of the UART, tests of the model, and the theorems at concrete
-- inputs.
mod Uart
mod Engine
mod Ppp
mod Services
mod Device
mod Network
mod Clients

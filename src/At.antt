-- ===== src/At.antt =====
-- src/ec200_at.c: the AT command engine.
pub mod Valid
pub mod Lines
pub mod Delivery
pub mod Returning
pub mod Receiving
pub mod Wire
pub mod Silence
pub mod Printed
pub mod Table
pub mod Sent
pub mod Outcome
pub mod Rx
pub mod Terminal
pub mod Urc
pub mod Tx
pub mod Transaction
pub mod Wait
pub mod Prompt
pub mod Command
pub mod Raw
pub mod Field
pub mod Guarded

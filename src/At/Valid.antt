-- ===== src/At/Valid.antt =====
-- The invariant of the handle: every array keeps its C size, and what is held in the receive buffer
-- leaves room for the terminating NUL.
mod Defs
pub mod Step
pub mod Receive
pub mod Transact
pub mod Calls
pub use Defs.{
  IsValid, After, After-bind, After-weaken, After-both, After-trivial, Total, Total-bind,
  Total-weaken,
}

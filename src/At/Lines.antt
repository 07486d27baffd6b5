-- ===== src/At/Lines.antt =====
-- What the line assembler of src/ec200_at.c computes, as a function of the byte stream.
mod Spec
pub mod Feed
pub mod Read
pub mod Returns
pub use Spec.{lf, max_held, held, strip_cr, NoLf, clip}
pub use Spec.{Stream}
pub mod Exact
pub mod Byte

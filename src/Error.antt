-- ===== src/Error.antt =====
-- src/error.rs, with `OutgoingError` of src/outgoing.rs, which holds an `Error`; the results of
-- Rust code, a panic among them; and a method's monad over the object that it changes.
mod Laws
pub use Laws.*
pub use Defs.*
mod Defs

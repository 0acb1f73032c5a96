-- ===== src/Wire.antt =====
-- The wire format of envelope.go: `marshalMeta` and `Marshal`, the bounds-checked reader,
-- `parseSlot` and `ParseEnvelope`.
mod Marshal
mod Reader
mod Parse
mod Cursor
pub mod Fields
pub mod Slots
pub mod RoundTrip
pub mod Refusals
pub mod Binding
unfoldable pub use Marshal.*
unfoldable pub use Reader.*
unfoldable pub use Parse.*

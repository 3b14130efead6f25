-- ===== src/Dict.antt =====
-- Python's `dict` with string keys: an association list in insertion order, with its laws.
mod Defs
mod Laws
unfoldable pub use Defs.*
pub use Laws.*

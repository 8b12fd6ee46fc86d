-- ===== src/Glib.antt =====
-- What the library's code relies on of GLib's GHashTable. GLib is not part of the repository: a
-- table is a parameter of the model, and its documented behaviour is the laws of `HashTable`.
-- `Assoc` shows that the laws can be met.
pub mod Assoc
pub mod Defs
pub mod Lemmas
pub use Defs.*
pub use Lemmas.*

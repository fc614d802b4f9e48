-- ===== src/Text.antt =====
-- The text primitives of src/lua/vm.c for a terminal: escape sequences, UTF-8, clusters, widths.
pub mod Scan
pub mod Escape
pub mod Utf8
pub mod Classes
pub mod Cluster
pub mod Width
pub mod Builder
pub mod Sgr
pub mod Wrap
pub mod Fill
mod Tests

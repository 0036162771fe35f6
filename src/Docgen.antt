-- ===== src/Docgen.antt =====
-- The documentation generator of internal/docgen/: what it computes between parsing and writing.
pub mod Doc
pub mod Tags
pub mod Changelog
pub mod Config
pub mod Syntax
pub mod Middlewares
pub mod Returns
pub mod Fields
pub mod Packages
pub mod Params
pub mod Routers
pub mod Groups
pub mod Json
pub mod Markdown
pub mod Command

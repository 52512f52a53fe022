-- ===== src/Content/Markdown.antt =====
-- crates/content/src/markdown.rs: the parser of Markdown and the renderer of blocks.
mod Tests
pub mod Escape
pub mod Url
pub mod Markup
pub mod Inline
pub mod Render
pub mod Search
pub mod Outcome
pub mod Lines
pub mod Image
pub mod VideoUrl
pub mod Html
pub mod Parse

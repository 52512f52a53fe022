-- ===== src/Content/Markdown/Html.antt =====
-- crates/content/src/markdown.rs: the raw <img> and <iframe> tags. The source scans the bytes of a
-- tag; what it looks for are ASCII characters, so the model scans the characters and returns what is
-- left instead of a position, and a character of a value gives as many characters as it has bytes.
pub mod Tag
pub mod Img
pub mod Iframe
pub mod Attributes
pub mod Scan
pub mod Ends

-- ===== src/Markdown.antt =====
-- internal/markdown/markdown.go: the markdown that agents write, as HTML for the board. Escape to Blocks
-- are the code; Html says what safe HTML is, and the files behind it lead to what Page shows of Render.
pub mod Escape
pub mod Places
pub mod Ends
pub mod Scan
pub mod Inline
pub mod Lines
pub mod Writer
pub mod Tables
pub mod Lists
pub mod Blocks
pub mod Html
pub mod Writing
pub mod Marks
pub mod Marker
pub mod Safe
pub mod Pieces
pub mod Items
pub mod Page
pub mod Scenarios

-- ===== src/Shared.antt =====
-- Values that every part uses: text and JSON documents.
pub mod Text
pub mod Json

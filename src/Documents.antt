-- ===== src/Documents.antt =====
-- Documents that a person keeps with the money: src-tauri/src/documents.
pub mod Names
pub mod Kinds

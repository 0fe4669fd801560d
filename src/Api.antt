-- ===== src/Api.antt =====
-- The local API: src-tauri/src/api.rs and src-tauri/src/api.
pub mod Http

-- ===== src/Backup.antt =====
-- Backups: src-tauri/src/backup.
pub mod Stream

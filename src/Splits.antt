-- ===== src/Splits.antt =====
-- Shared bills: src-tauri/src/debts/splits.rs.
pub mod Allocate
pub mod Lines
pub mod Input
pub mod Bill
pub mod Template
pub mod Check

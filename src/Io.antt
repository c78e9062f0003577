-- ===== src/Io.antt =====
-- The IO program: io/io.go.
pub mod Connection
pub mod Script
pub mod Samples

-- ===== src/BootGap.antt =====
-- internal/engine/bootgap.go: the writes that arrive while a snapshot file is loaded at boot.
pub mod Cover
pub mod Buffer

-- ===== src/Watermark.antt =====
-- internal/engine/watermark.go: the bookkeeping of the write counter in PostgreSQL, the trust in it,
-- and when a snapshot file is refused for it.
pub mod Ledger
pub mod Trust
pub mod Refusal
pub mod Abandoned

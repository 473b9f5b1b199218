-- ===== src/Snapshot.antt =====
-- internal/engine/snapshot: the in-memory replica.
pub mod Bitset
pub mod EdgeKinds
pub mod KindTable
pub mod Store

-- ===== src/Interpret.antt =====
-- internal/engine/interpret/value.go: the predicates of the Cypher interpreter.
pub mod Tri
pub mod Like

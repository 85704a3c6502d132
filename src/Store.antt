-- ===== src/Store.antt =====
-- src/tacorank/memory/event_store.py: the append-only ledger file, as bytes.
pub mod Lines
pub mod Codec
pub mod Reading
pub mod Appending
pub mod Chain
pub mod Roundtrip
pub mod Crash
pub mod Lookup
pub mod Projecting

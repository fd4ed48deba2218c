-- ===== src/Memory.antt =====
-- packages/memory/src/memovi_memory: knowledge items and the chunks of a document's text. A document
-- reference is a text; that it is a UUID is what the record of ports tells.
pub mod Chunks
pub mod Examples

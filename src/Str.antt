-- ===== src/Str.antt =====
-- core/str: string payloads, and the operations on their bytes.
pub mod Ref
pub mod Text

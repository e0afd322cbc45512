-- ===== src/Llm.antt =====
-- crates/xiaozhi-llm: what the clients of the language models share.
pub mod Common

-- ===== src/Llm.antt =====
-- backend/app/services/resilient_llm.py: the chat model that retries before its first chunk and
-- continues an answer that its token limit cut.
pub mod Chunk
pub mod Content
pub mod Retry
pub mod Stream
pub mod Thinking
pub mod Errors

-- ===== src/Ai.antt =====
-- pkg/ai: the parts of the library that decide which model answers, and with what.
pub mod Float
pub mod Gateway
pub mod Cache
pub mod Fallback
pub mod Guardrail
pub mod Tools
pub mod Router
pub mod Prompt
pub mod Agent
pub mod Rag
pub mod Schema

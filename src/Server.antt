-- ===== src/Server.antt =====
-- server/main.cpp: the lock in front of the runtime and the handling of generated text.
pub mod TicketLock
pub mod Base64
pub mod Stream
pub mod Reasoning
pub mod Router
pub mod ToolCalls

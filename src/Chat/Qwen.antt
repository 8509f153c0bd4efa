-- ===== src/Chat/Qwen.antt =====
-- core/chat.cpp: `build_qwen_prompt` for a vocabulary that is not lfm2's. `Header` has the parts that
-- stand before and after the messages, `Turns` the loop over the messages.
pub mod Turns
pub mod Header

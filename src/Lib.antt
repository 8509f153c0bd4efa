-- ===== src/Lib.antt =====
-- A verification library for the questwend inference engine.
--
-- The program loads a language model from GGUF files and generates text. A request's text is cut and
-- encoded by the tokenizer (core/tokenizer.cpp); the runtime (core/runtime.cpp) runs the model's
-- graph on the tokens, hashing each token with its predecessors for the n-gram embedding
-- (core/ngram_table.cpp) and bringing the experts that a layer's router selects into slots of video
-- memory (core/expert_cache.cpp); the tokens that the sampler (core/sampler.cpp) takes are decoded
-- again. The server (server/main.cpp) builds the prompt of a conversation (core/chat.cpp), waits for the
-- runtime in the queue of its lock, and routes the text of the tokens to the reasoning, the content and
-- the tool calls of its answer. Both binaries read the same options (core/args.cpp).
--
-- Tokenizer (core/tokenizer.cpp, core/tokenizer.h, `Vocab` of core/model.h):
--   Tokenizer/Utf8        utf8_append, utf8_decode; codepoints keep their place in the text
--   Tokenizer/ByteMap     build_byte_unicode, the tables byte_to_uni_ and uni_to_byte_
--   Tokenizer/Classes     the cp_is_… tests and the lambdas of the pre-tokenizers
--   Tokenizer/Split       the loop that both pre-tokenizers share, the run scans and `emit`
--   Tokenizer/Pretokenize pretokenize_qwen, pretokenize_deepseek3, pretokenize
--   Tokenizer/Bpe         the constructor (`make`), bpe_encode_piece
--   Tokenizer/Encode      match_special, encode, decode
-- N-gram table (core/ngram_table.cpp):
--   Ngram/Hash            hash_rows: the predecessors with the cut at EOS, the mixing in uint64_t, the
--                         rows of each head, the history that is carried to the next batch
--   Ngram/Mode            mode_name, parse_mode
-- Expert cache (core/expert_cache.cpp, core/expert_cache.h):
--   ExpertCache/Pool      a slot pool: drop_slot, pick_victim, install, slot_for; Pool/Fresh is the
--                         pool that the constructor makes
--   ExpertCache/Ensure    ensure, where the experts are in host memory
-- Chat prompts (core/chat.cpp, core/chat.h):
--   Chat                  messages, options, the prompt with its image spans, the errors
--   Chat/Trim, Emit       ltrim_ws, rtrim_ws, ends_with; emit_tok, emit_text
--   Chat/Content          emit_content: the segments of a message, its images, the trimming
--   Chat/Qwen, Qwen/…     build_qwen_prompt with the ChatML template and with its fallback
--   Chat/Lfm2, Chat/Build build_lfm2_prompt; chat_format, build_qwen_prompt, build_chatml_tokens
--   Chat/Growth, Refusal  theorems on what a prompt keeps when it grows, and on its errors
-- Sampler (core/sampler.cpp, core/sampler.h):
--   Sampler               accept, prime, sample; the theorems are in its child modules
-- Server (server/main.cpp):
--   Server/TicketLock     `TicketLock`; its callers are a step relation in TicketLock/Calls
--   Server/Base64         base64_decode
--   Server/Stream         marker_holdback, utf8_clip
--   Server/Router         the routing of a streamed reply, `emit_piece`
--   Server/Reasoning      split_reasoning
--   Server/ToolCalls      parse_tool_calls; ToolCalls/Reader and CallList model `PyReader`
-- Command line (core/args.cpp, core/args.h):
--   Args                  parse_common_arg, set_knob, tier, validate_common_options,
--                         reserve_vision_tower_vram
-- Shared helpers are in Prelude: lists and texts over the native numbers, integers, bit operations,
-- maps as association lists, properties of tables that are checked entry by entry.
--
-- Strings are lists of bytes, each a number. A `-1` for "none" is an `Option`. The unordered maps
-- are association lists with a key at most once; nothing depends on their order. uint64_t arithmetic
-- of the hash, the cache's clock and its counters and the lock's tickets wraps at 2 ^ 64; the other
-- sizes and indices are unbounded numbers.
--
-- Loops without a structural measure run on fuel: a pre-tokenizer has as many rounds as codepoints,
-- since each round passes one at least; `encode` has as many as bytes; the merge loop has as many as
-- symbols, since each merge removes one; the loop over tool call blocks has one more than bytes; the
-- loop of `emit_piece` has three, one for each phase. That these are enough is part of the theorems on
-- the loops. `skip_dead` has as many rounds as dead tickets, since each erases one; the invariant of
-- the lock rests on it. The readers of `PyReader` have two rounds for each byte, since a list or an
-- entry takes a byte or more, and the loop over the parameters of a tool call has one for each byte of
-- the block; no theorem says that these two are enough. The decimal digits of a number have the number
-- as fuel, since each step divides it by ten.
--
-- Parameters: the sampler's `float` and `double` are one type with its operations, and the number that
-- its generator draws is a function of the sum of the weights. JSON values are nlohmann's, a record of
-- the operations that the tool call readers call; `dump` and the readers built on it return an Option,
-- where `none` is an exception. The conversions of numbers and the parsers of GPU lists that the
-- options call are functions. The slab of bytes that a role, a layer and an expert have in the model's
-- files is a function that the cache's operations take, in place of the reads and uploads of
-- `fetch_slab`.
--
-- Not modelled: the wake-up of the threads that wait for the ticket lock, which may test their
-- predicate at any time; the graphs and tensors of ggml, reading GGUF files, the vision encoder, the
-- server's handlers of HTTP requests, `py_literal`, the client, the GPU plan of the options, the row
-- cache of the n-gram table, the cache's SSD reads (reserve_victim, fetch_parallel), the computation of
-- its layer quotas and its profile.
pub mod Args
pub mod Chat
pub mod ExpertCache
pub mod Ngram
pub mod Prelude
pub mod Sampler
pub mod Server
pub mod Tokenizer

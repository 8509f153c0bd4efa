-- ===== src/Chat.antt =====
-- core/chat.cpp and core/chat.h: the token sequence of a conversation. This file has the data of
-- core/chat.h and the errors; `Trim` the string helpers, `Emit` the emission of text and tokens,
-- `Content` the text and images of a message, `Qwen` and `Lfm2` the two templates.
pub mod Trim
pub mod Emit
pub mod Content
pub mod Qwen
pub mod Lfm2
pub mod Build
pub mod Growth
pub mod Refusal
mod Tests
use questwend.Prelude.{ℕ, List, [], ◌∷◌, Bytes, Bool, Option, none, some}
use questwend.Prelude.Int.{ℤ}

-- `struct ContentPart`
pub data ContentPart : Type 0 where
  text : Bytes → ContentPart
  image : ℤ → ContentPart

-- `struct ToolCall`
pub record ToolCall : Type 0 where
  pub name : Bytes
  pub arguments : List (Bytes × Bytes)
  pub arg_literals : List Bytes

-- `struct ChatMessage`
pub record ChatMessage : Type 0 where
  pub role : Bytes
  pub content : Bytes
  pub parts : List ContentPart
  pub reasoning_content : Bytes
  pub has_reasoning : Bool
  pub tool_calls : List ToolCall

-- `struct ChatPromptOptions`
pub record ChatPromptOptions : Type 0 where
  pub add_generation_prompt : Bool
  pub reasoning : Bool
  pub preserve_thinking : Bool
  pub add_vision_id : Bool
  pub n_image_tokens : ℤ
  pub tools_json : List Bytes

-- `ChatPrompt::ImageSpan`
pub record ImageSpan : Type 0 where
  pub first : ℕ
  pub count : ℕ
  pub image_index : ℤ

-- `struct ChatPrompt`; `none` is the -1 of `gen_prompt_begin`.
pub record ChatPrompt : Type 0 where
  pub ids : List ℤ
  pub image_spans : List ImageSpan
  pub gen_prompt_begin : Option ℕ

-- The `runtime_error`s, one constructor for each `throw`.
pub data ChatError : Type 0 where
  lfm2_image : ChatError
  no_chatml_image : ChatError
  system_image : ChatError
  no_vision_tokens : ChatError
  late_system : ChatError
  assistant_image : ChatError
  unexpected_role : Bytes → ChatError

pub data Result {ℓ} (A : Type ℓ) : Type ℓ where
  ok : A → Result A
  err : ChatError → Result A

infixl 5 ◌>>=◌
abbrev pub ◌>>=◌ {ℓ κ} : {A : Type ℓ} {B : Type κ} → Result A → (A → Result B) → Result B
ok a >>= f = f a
err e >>= f = err e

-- A test of a list that the code makes by `empty()`.
abbrev pub is_empty {ℓ} : {A : Type ℓ} → List A → Bool
is_empty [] = Bool.true
is_empty (x ∷ xs) = Bool.false

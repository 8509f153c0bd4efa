-- ===== src/Tokenizer/Access.antt =====
-- core/tokenizer.cpp and core/tokenizer.h: the members that look at a tokenizer, `token_to_id` and
-- `chat_wants_bos`.
use questwend.Prelude.{Bytes, Bool, ◌||◌, none, some}
use questwend.Prelude.Dict.{bytes_key, lookup}
use questwend.Prelude.Int.{ℤ, pos, negsuc}
use questwend.Tokenizer.Bpe.{Tokenizer}

unfoldable pub token_to_id : Tokenizer → Bytes → ℤ
token_to_id t tok = elim (lookup tok t.token_ids) [ none ↦ negsuc 0 | some id ↦ pos id ]

unfoldable pub chat_wants_bos : Tokenizer → Bool
chat_wants_bos t = t.add_bos || t.template_bos

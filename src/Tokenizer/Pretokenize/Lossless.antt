-- ===== src/Tokenizer/Pretokenize/Lossless.antt =====
-- The pieces of every pre-tokenizer, joined, are the text.
use questwend.Prelude.{◌≡◌, Bytes, flatten}
use questwend.Tokenizer.Pretokenize.{
  Pre, pretokenize, pretokenize_qwen, pretokenize_deepseek3, qwen_end, deepseek_end,
}
use questwend.Tokenizer.Pretokenize.Bounds.{qwen_end-Advances, deepseek_end-Advances}
use questwend.Tokenizer.Split.Lossless.{split_all_lossless}

-- For each of the three pre-tokenizers and every byte string, valid UTF-8 or not, the pieces joined
-- in order are the text: nothing is lost, added or moved, and the scan ends.
pub flatten-pretokenize : (pre : Pre) (text : Bytes) → flatten (pretokenize pre text) ≡ text
unfolding pretokenize pretokenize_qwen pretokenize_deepseek3
flatten-pretokenize Pre.deepseek3 text = split_all_lossless deepseek_end deepseek_end-Advances text
flatten-pretokenize Pre.llama3 text = split_all_lossless (qwen_end 3) (qwen_end-Advances 3) text
flatten-pretokenize Pre.qwen text = split_all_lossless (qwen_end 1) (qwen_end-Advances 1) text

-- ===== src/Server/Base64/Tests.antt =====
-- `base64_decode` on a text with padding, a line end and a character that is not of the alphabet.
use questwend.Prelude.{[], ◌∷◌, ◌≡◌, refl, Bytes, codes, arith}
use questwend.Server.Base64
use questwend.Server.Base64.{base64_decode}
use questwend.Server.Base64.RoundTrip
use questwend.Server.Base64.RoundTrip.{base64_decode-to_base64}

abbrev bytes : Bytes
bytes = codes "Man lo"

text_codes : base64_decode (codes "TWFu\nIGxv") ≡ bytes
unfolding base64_decode Base64.decode_loop Base64.sextet Base64.table_from Base64.alphabet
text_codes = refl

base64_decode-to_base64_example : base64_decode (codes "+/\nA?=") ≡ 0xFB ∷ 0xF0 ∷ []
unfolding RoundTrip.significant RoundTrip.is_base64 RoundTrip.to_base64 RoundTrip.char_of
base64_decode-to_base64_example =
    base64_decode-to_base64 (codes "+/\nA?=") (0xFB ∷ 0xF0 ∷ [])
      (omega arith, (omega arith, (omega arith, (omega arith, (omega arith, (omega arith, tt))))))
      (omega arith, (omega arith, tt)) refl

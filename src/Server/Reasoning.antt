-- ===== src/Server/Reasoning.antt =====
-- server/main.cpp, `split_reasoning`: the reasoning and the answer of a whole reply.
use questwend.Prelude.{
  ℕ, ◌+◌, Bytes, codes, Bool, ◌||◌, none, some, ◌==◌, if◌then◌else◌, take, drop, begins_with, find,
}
use questwend.Chat.Trim.{drop_while, drop_end, is_newline}

-- `" \n"`
abbrev pub is_blank : ℕ → Bool
is_blank c = c == 0x20 || c == 0x0A

-- `reasoning.erase(0, lead + 7)`, if a `<think>` stands behind the white space.
unfoldable pub drop_opening : Bytes → Bytes
drop_opening reasoning =
    let head = drop_while is_blank reasoning in
    if begins_with (codes "<think>") head then drop 7 head else reasoning

-- The reasoning and what follows it; the first is the one given where there is no `</think>`.
unfoldable pub split_reasoning : Bytes → Bytes → Bytes × Bytes
split_reasoning text given = elim (find text (codes "</think>") 0) [
  | none ↦ (given, text)
  | some p ↦ (
    drop_end is_blank (drop_while is_newline (drop_opening (take p text))),
    drop_while is_newline (drop (p + 8) text),
  )
]

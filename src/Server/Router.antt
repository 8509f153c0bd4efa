-- ===== src/Server/Router.antt =====
-- server/main.cpp, `emit_piece` of a streamed request: the text of one token goes to the reasoning, to
-- the content, or is withheld. The marker of a tool call depends on the model (`cfmt.tool_open`).
pub mod Find
pub mod Channel
pub mod Routed
pub mod Opening
pub mod Sent
pub mod Reply
pub mod Pieces
mod Tests
use questwend.Prelude.{
  ℕ, zero, suc, ◌+◌, ◌-◌, List, [], ◌∷◌, ◌++◌, Bytes, codes, Bool, true, false, ◌&&◌, Option, none,
  some, ltb, ◌==◌, if◌then◌else◌, length, take, drop, begins_with, find,
}
use questwend.Chat.Trim.{is_ws, is_newline, drop_while, drop_end}
use questwend.Server.Reasoning.{is_blank}
use questwend.Server.Stream.{marker_holdback, utf8_clip}

-- `State::Phase`
pub data Phase : Type 0 where
  reason : Phase
  content : Phase
  tool : Phase

-- The members of `State` that route the text.
pub record Router : Type 0 where
  pub phase : Phase
  pub skip_lead : Bool
  pub await_think : Bool
  pub skip_lead_r : Bool
  pub hold : Bytes
  pub pend_r : Bytes
  pub utf8_pend : Bytes

unfoldable pub think_open : Bytes
think_open = codes "<think>"

unfoldable pub think_close : Bytes
think_close = codes "</think>"

-- One round of the loop on the text that is held: what goes out, what stays, and whether the marker
-- was found.
unfoldable pub scan : Bytes → Bytes → Bytes × Bytes × Bool
scan marker hold = elim (find hold marker 0) [
  | none ↦
      let keep = length hold - marker_holdback hold marker in
      (take keep hold, drop keep hold, false)
  | some p ↦ (drop_end is_ws (take p hold), drop (p + length marker) hold, true)
]

-- `for (bool again = true; again; )`, with a bound on the rounds.
unfoldable pub route : Bytes → ℕ → Router → Bytes → Bytes → Router × Bytes × Bytes
route tool_open zero s rout cout = (s, rout, cout)
route tool_open (suc rounds) s rout cout = elim s.phase [
  | tool ↦ (s, rout, cout)
  | reason ↦
      let (out, hold, found) = scan think_close s.hold in
      let on =
        route tool_open rounds (record s { phase = content; skip_lead = true; hold = hold })
          (rout ++ out) cout in
      if found then on else (record s { hold = hold }, rout ++ out, cout)
  | content ↦
      let (out, hold, found) = scan tool_open s.hold in
      let on =
        route tool_open rounds (record s { phase = tool; skip_lead = false; hold = hold }) rout
          (cout ++ out) in
      if found then on else (record s { hold = hold }, rout, cout ++ out)
]

-- The wait for a `<think>` that the reply may open; `none` is an early return.
unfoldable pub await_open : Router → Option Router
await_open s =
    let head = drop_while is_blank s.hold in
    let on = record s { await_think = false } in
    if s.await_think
    then (if length head == 0
        then none
        else if ltb (length head) 7 && begins_with head think_open
        then none
        else if begins_with think_open head
        then some (record on { hold = drop 7 head; phase = reason; skip_lead_r = true })
        else some on)
    else some s

-- `if (st->skip_lead && !cout_.empty())`: the text without newlines at its front, and the new flag.
unfoldable pub skip_newlines : Bool → Bytes → Bytes × Bool
skip_newlines false out = (out, false)
skip_newlines true out = let rest = drop_while is_newline out in (rest, length rest == 0)

-- What of the routed text is sent now: the reasoning and the content.
unfoldable pub send : Router × Bytes × Bytes → Router × Bytes × Bytes
send (s, rout, cout) =
    let (rout1, skip_r) = skip_newlines s.skip_lead_r rout in
    let (cout1, skip_c) = skip_newlines s.skip_lead cout in
    let (rout2, pend_r) = utf8_clip s.pend_r rout1 in
    let (cout2, pend_c) = utf8_clip s.utf8_pend cout1 in
    (
      record s { skip_lead_r = skip_r; skip_lead = skip_c; pend_r = pend_r; utf8_pend = pend_c },
      rout2,
      cout2,
    )

-- The part of `emit_piece` that decides what is sent. A round of the loop either ends it or goes on to
-- the next phase.
unfoldable pub emit_piece : Bytes → Router → Bytes → Router × Bytes × Bytes
emit_piece tool_open s piece = elim (await_open (record s { hold = s.hold ++ piece })) [
  | none ↦ (record s { hold = s.hold ++ piece }, [], [])
  | some ready ↦ send (route tool_open 3 ready [] [])
]

-- The pieces of a reply, one after the other: all that was sent as reasoning and as content.
unfoldable pub emit_all : Bytes → Router → List Bytes → Router × Bytes × Bytes
emit_all tool_open s [] = (s, [], [])
emit_all tool_open s (piece ∷ pieces) =
    let (s1, sent_r, sent_c) = emit_piece tool_open s piece in
    let (s2, sents_r, sents_c) = emit_all tool_open s1 pieces in
    (s2, sent_r ++ sents_r, sent_c ++ sents_c)

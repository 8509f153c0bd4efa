-- ===== src/Server/Router/Pieces.antt =====
-- `emit_piece` on a whole reply, whatever the pieces that it comes in.
use questwend.Prelude.{
  ◌≡◌, ◌≢◌, ◌<◌, zero, suc, refl, sym, ap, ◌∙◌, inl, inr, List, [], ◌∷◌, ◌++◌, flatten,
  append_assoc, append-nil, Bytes, Bool, true, false, length, begins_with, arith, none, some,
  Bool-cases,
}
use mathlib.Core.Path.{subst}
use questwend.Server.Router.{
  Phase, reason, content, tool, Router, think_open, think_close, await_open, route, send,
  emit_piece, emit_all,
}
use questwend.Server.Router.Channel.{IsSafe-start}
use questwend.Server.Router.Find.{IsAbsent}
use questwend.Server.Router.Opening.{
  IsUndecided, IsUnopened, undecided, opened, unopened, await_open-IsDecided,
}
use questwend.Server.Router.Routed.{IsReady, in_reason, in_content, at_once, IsQuiet, IsReady-grow}
use questwend.Server.Router.Sent.{IsSent}
use questwend.Server.Router.Reply.{
  IsReply, waiting, direct, behind_think, IsProgress, IsSent-nil, send-IsProgress,
}

-- A reply that the code has routed and sent this far.
abbrev pub IsEmitted : Bytes → Bool → Phase → Bytes → Router × Bytes × Bytes → Type 0
IsEmitted tool_open awaits began text e =
    (rout : Bytes) × (cout : Bytes) × IsReply tool_open awaits began text rout cout e.0
    × IsProgress rout cout e.1 e.2 e.0

start-IsReady :
    (tool_open hold : Bytes) (phase : Phase)
    → phase ≢ tool
    → IsReady phase tool_open hold [] [] hold phase
start-IsReady tool_open hold reason other = in_reason refl refl (IsSafe-start think_close hold) refl
start-IsReady tool_open hold content other =
    in_content [] at_once refl (IsSafe-start tool_open hold)
start-IsReady tool_open hold tool other = absurd (other refl)

emit_piece-ready :
    (tool_open piece : Bytes) (s ready : Router)
    → await_open (record s { hold = s.hold ++ piece }) ≡ some ready
    → emit_piece tool_open s piece ≡ send (route tool_open 3 ready [] [])
unfolding emit_piece
emit_piece-ready tool_open piece s ready e = rw (e, emit_piece) refl

emit_piece-waits :
    (tool_open piece : Bytes) (s : Router)
    → await_open (record s { hold = s.hold ++ piece }) ≡ none
    → emit_piece tool_open s piece ≡ (record s { hold = s.hold ++ piece }, [], [])
unfolding emit_piece
emit_piece-waits tool_open piece s e = rw (e, emit_piece) refl

await_open-ready : (s : Router) → s.await_think ≡ false → await_open s ≡ some s
unfolding await_open
await_open-ready s e = simp (e, await_open)

module _ (tool_open : Bytes) (awaits : Bool) (began : Phase) (other : began ≢ tool) where
  -- One more piece.
  emit_piece-IsEmitted :
      (text rout cout sent_r sent_c piece : Bytes) (s : Router)
      → IsReply tool_open awaits began text rout cout s
      → IsProgress rout cout sent_r sent_c s
      → let e = emit_piece tool_open s piece in
        IsEmitted tool_open awaits began (text ++ piece) (e.0, sent_r ++ e.1, sent_c ++ e.2)
  emit_piece-IsEmitted text rout cout sent_r sent_c piece s (direct ready unopen (parts, quiet))
        before =
      let s1 = record s { hold = s.hold ++ piece } in
      let (routed, progress, still) =
        send-IsProgress began tool_open (text ++ piece) rout cout sent_r sent_c s1
          (IsReady-grow began tool_open text rout cout s.hold piece s.phase parts)
          (record {
            reasoning = before.reasoning;
            fresh_r = before.fresh_r;
            answer = before.answer;
            fresh_c = before.fresh_c;
          }) in
      rw (emit_piece-ready tool_open piece s s1 (await_open-ready s1 ready)) (
        _,
        _,
        direct (still ∙ ready)
            (λ w later. rw (append_assoc text piece later) (unopen w (piece ++ later))) routed,
        progress,
      )
  emit_piece-IsEmitted text rout cout sent_r sent_c piece s
        (behind_think body w ready opening (parts, quiet)) before =
      let s1 = record s { hold = s.hold ++ piece } in
      let (routed, progress, still) =
        send-IsProgress reason tool_open (body ++ piece) rout cout sent_r sent_c s1
          (IsReady-grow reason tool_open body rout cout s.hold piece s.phase parts)
          (record {
            reasoning = before.reasoning;
            fresh_r = before.fresh_r;
            answer = before.answer;
            fresh_c = before.fresh_c;
          }) in
      rw (emit_piece-ready tool_open piece s s1 (await_open-ready s1 ready)) (
        _,
        _,
        behind_think (body ++ piece) w (still ∙ ready)
            (record {
              blank = opening.blank;
              parts =
                  ap (λ t. t ++ piece) opening.parts
                  ∙ append_assoc opening.blank (think_open ++ body) piece
                  ∙ ap (λ t. opening.blank ++ t) (append_assoc think_open body piece);
              white = opening.white;
            })
            routed,
        progress,
      )
  emit_piece-IsEmitted text rout cout sent_r sent_c piece s
        (waiting w ready at held open_yet none_r none_c) before =
      let s1 = record s { hold = s.hold ++ piece } in
      let whole : s.hold ++ piece ≡ text ++ piece = ap (λ t. t ++ piece) held in
      let reasoning = subst (λ r. IsSent r (sent_r ++ s.pend_r)) none_r before.reasoning in
      let answer = subst (λ c. IsSent c (sent_c ++ s.utf8_pend)) none_c before.answer in
      elim (await_open-IsDecided s1 ready) [
        | undecided e still ↦ rw (emit_piece-waits tool_open piece s e) (
          rout,
          cout,
          waiting w ready at whole (subst IsUndecided whole still) none_r none_c,
          rw (append-nil sent_r) (
              rw (append-nil sent_c) (record {
                reasoning = before.reasoning;
                fresh_r = before.fresh_r;
                answer = before.answer;
                fresh_c = before.fresh_c;
              })),
        )
        | opened body e opening ↦
            let s2 = record s {
              await_think = false;
              hold = body;
              phase = reason;
              skip_lead_r = true;
            } in
            let (routed, progress, still) =
              send-IsProgress reason tool_open body [] [] sent_r sent_c s2
                (start-IsReady tool_open body reason (λ h. absurd (ground arith)))
                (record {
                  reasoning = reasoning;
                  fresh_r = λ h. IsSent-nil reasoning;
                  answer = answer;
                  fresh_c = before.fresh_c;
                }) in
            rw (emit_piece-ready tool_open piece s s2 e) (
              _,
              _,
              behind_think body w still
                  (record {
                    blank = opening.blank;
                    parts = sym whole ∙ opening.parts;
                    white = opening.white;
                  })
                  routed,
              progress,
            )
        | unopened e unopen ↦
            let s2 = record s { await_think = false; hold = s.hold ++ piece } in
            let start =
              subst (λ p. IsReady began tool_open (s.hold ++ piece) [] [] (s.hold ++ piece) p)
                (sym at) (start-IsReady tool_open (s.hold ++ piece) began other) in
            let (routed, progress, still) =
              send-IsProgress began tool_open (text ++ piece) [] [] sent_r sent_c s2
                (subst (λ t. IsReady began tool_open t [] [] (s.hold ++ piece) s.phase) whole start)
                (record {
                  reasoning = reasoning;
                  fresh_r = before.fresh_r;
                  answer = answer;
                  fresh_c = before.fresh_c;
                }) in
            rw (emit_piece-ready tool_open piece s s2 e)
              (_, _, direct still (λ h. subst IsUnopened whole unopen) routed, progress)
      ]

  emit_all-from :
      (text rout cout sent_r sent_c : Bytes) (s : Router) (pieces : List Bytes)
      → IsReply tool_open awaits began text rout cout s
      → IsProgress rout cout sent_r sent_c s
      → let e = emit_all tool_open s pieces in
        IsEmitted tool_open awaits began
          (text ++ flatten pieces)
          (e.0, sent_r ++ e.1, sent_c ++ e.2)
  unfolding emit_all flatten
  emit_all-from text rout cout sent_r sent_c s [] reply progress =
      rw (append-nil text)
        (rw (append-nil sent_r) (rw (append-nil sent_c) (rout, cout, reply, progress)))
  emit_all-from text rout cout sent_r sent_c s (piece ∷ pieces) reply progress =
      let e = emit_piece tool_open s piece in
      let (r, c, reply1, progress1) =
        emit_piece-IsEmitted text rout cout sent_r sent_c piece s reply progress in
      rw (← append_assoc text piece (flatten pieces)) (
        rw (← append_assoc sent_r e.1 (emit_all tool_open e.0 pieces).1) (
          rw (← append_assoc sent_c e.2 (emit_all tool_open e.0 pieces).2) (
            emit_all-from (text ++ piece) r c (sent_r ++ e.1) (sent_c ++ e.2) e.0 pieces reply1
              progress1)))

nowhere-IsAbsent : (marker : Bytes) → 0 < length marker → IsAbsent marker []
unfolding begins_with
nowhere-IsAbsent [] some_marker p = absurd (omega arith)
nowhere-IsAbsent (m ∷ marker) some_marker zero = refl
nowhere-IsAbsent (m ∷ marker) some_marker (suc p) = refl

start-IsQuiet :
    (tool_open : Bytes) (phase : Phase) → 0 < length tool_open → IsQuiet tool_open [] phase
unfolding IsQuiet think_close
start-IsQuiet tool_open reason some_marker = nowhere-IsAbsent think_close (omega arith)
start-IsQuiet tool_open content some_marker = nowhere-IsAbsent tool_open some_marker
start-IsQuiet tool_open tool some_marker = tt

-- Take a router that holds nothing, has nothing pending and is not in the phase of a tool call, and any
-- pieces of a reply. Then there are a reasoning and a content that the text is routed to. Where a
-- `<think>` is awaited, either the text is white space and a part of `<think>` and nothing is routed, or
-- no text that it begins opens with white space and `<think>`, or it does and what is routed is the text
-- behind that, which began as reasoning. The text routed is the reasoning, white space and the first
-- `</think>`, if it began as reasoning, then the content, white space and the first tool marker behind
-- it, then what is held, up to the part of this that the phase has reached. No part of these markers is
-- routed, and the one that ends the phase is not in what is held. The reasoning is newlines, then what
-- was sent as reasoning, then the bytes pending for it, and the content likewise.
pub emit_all-IsEmitted :
    (tool_open : Bytes) (s : Router) (pieces : List Bytes)
    → s.hold ≡ []
    → s.pend_r ≡ []
    → s.utf8_pend ≡ []
    → s.phase ≢ tool
    → 0 < length tool_open
    → IsEmitted tool_open s.await_think s.phase (flatten pieces) (emit_all tool_open s pieces)
unfolding think_open
emit_all-IsEmitted tool_open s pieces empty none_r none_c other some_marker =
    emit_all-from tool_open s.await_think s.phase other [] [] [] [] [] s pieces
      (elim (Bool-cases s.await_think) [
        | inl awaits ↦
            waiting awaits awaits refl empty
              (record {
                blank = [];
                head = [];
                parts = refl;
                white = tt;
                later = think_open;
                begins = refl;
                lacks = omega arith;
              })
              refl refl
        | inr ready ↦
            direct ready (λ h. absurd (ground arith))
              (subst
                (λ h. IsReady s.phase tool_open [] [] [] h s.phase × IsQuiet tool_open h s.phase)
                (sym empty)
                (
                  start-IsReady tool_open [] s.phase other,
                  start-IsQuiet tool_open s.phase some_marker,
                ))
      ])
      (record {
        reasoning = record { lead = []; newlines = tt; parts = sym none_r };
        fresh_r = λ h. none_r;
        answer = record { lead = []; newlines = tt; parts = sym none_c };
        fresh_c = λ h. none_c;
      })

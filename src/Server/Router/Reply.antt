-- ===== src/Server/Router/Reply.antt =====
-- What is known of a reply that came in pieces, and what the loop and `send` make of it.
use questwend.Prelude.{
  ◌≡◌, refl, sym, inl, inr, [], ◌∷◌, ◌++◌, append-nil, Bytes, Bool, true, false, arith,
}
use mathlib.Core.Path.{subst}
use questwend.Server.Router.{Phase, reason, content, tool, Router, route, send}
use questwend.Server.Router.Opening.{IsUndecided, IsOpened, IsUnopened}
use questwend.Server.Router.Routed.{IsReady, in_reason, IsRouted, route-IsRouted}
use questwend.Server.Router.Sent.{IsSent, IsFresh, skip_newlines-IsSent, route-IsCarried}

-- What is known of a reply: it may still open with `<think>`, it does not, or it does and what follows
-- began as reasoning. `awaits` tells whether it may, `began` in which phase it begins otherwise.
pub data IsReply (tool_open : Bytes) (awaits : Bool) (began : Phase) (text rout cout : Bytes)
    (s : Router) : Type 0 where
  waiting :
      awaits ≡ true
      → s.await_think ≡ true
      → s.phase ≡ began
      → s.hold ≡ text
      → IsUndecided text
      → rout ≡ []
      → cout ≡ []
      → IsReply tool_open awaits began text rout cout s
  direct :
      s.await_think ≡ false
      → (awaits ≡ true → IsUnopened text)
      → IsRouted began tool_open text rout cout s
      → IsReply tool_open awaits began text rout cout s
  behind_think :
      (body : Bytes)
      → awaits ≡ true
      → s.await_think ≡ false
      → IsOpened text body
      → IsRouted reason tool_open body rout cout s
      → IsReply tool_open awaits began text rout cout s

-- What was routed to the channels was sent or is pending, but newlines at their front.
pub record IsProgress (rout cout sent_r sent_c : Bytes) (s : Router) : Type 0 where
  pub reasoning : IsSent rout (sent_r ++ s.pend_r)
  pub fresh_r : IsFresh s.skip_lead_r (sent_r ++ s.pend_r)
  pub answer : IsSent cout (sent_c ++ s.utf8_pend)
  pub fresh_c : IsFresh s.skip_lead (sent_c ++ s.utf8_pend)

pub IsSent-nil : {sent : Bytes} → IsSent [] sent → sent ≡ []
IsSent-nil {sent} nothing = second nothing.lead sent nothing.parts
  where
    second : (xs ys : Bytes) → [] ≡ xs ++ ys → ys ≡ []
    second [] ys h = sym h
    second (x ∷ xs) ys h = absurd (ground arith)

-- In the phase of reasoning no content was routed.
nothing_yet :
    (began : Phase) (tool_open text rout cout hold sent : Bytes) (phase : Phase)
    → IsReady began tool_open text rout cout hold phase
    → phase ≡ reason
    → IsSent cout sent
    → sent ≡ []
nothing_yet began tool_open text rout cout hold sent reason (in_reason start parts safe none_sent) e
      before =
    IsSent-nil (subst (λ c. IsSent c sent) none_sent before)
nothing_yet began tool_open text rout cout hold sent content ready e before = absurd (ground arith)
nothing_yet began tool_open text rout cout hold sent tool ready e before = absurd (ground arith)

-- The loop and what it sends, from a state whose channels are known.
pub send-IsProgress :
    (began : Phase) (tool_open text rout cout sent_r sent_c : Bytes) (s : Router)
    → IsReady began tool_open text rout cout s.hold s.phase
    → IsProgress rout cout sent_r sent_c s
    → let r = route tool_open 3 s [] [] in
      let e = send r in
      IsRouted began tool_open text (rout ++ r.1) (cout ++ r.2) e.0
      × IsProgress (rout ++ r.1) (cout ++ r.2) (sent_r ++ e.1) (sent_c ++ e.2) e.0
      × (e.0.await_think ≡ s.await_think)
unfolding send
send-IsProgress began tool_open text rout cout sent_r sent_c s ready before =
    let r = route tool_open 3 s [] [] in
    let carried = route-IsCarried tool_open 3 s [] [] in
    let routed =
      route-IsRouted began tool_open text rout cout s s.phase refl
        (rw (append-nil rout) (rw (append-nil cout) ready)) in
    let (reasoning, fresh_r) =
      skip_newlines-IsSent r.0.skip_lead_r rout sent_r r.0.pend_r r.1
        (rw carried.pend_r before.reasoning)
        (rw carried.pend_r (rw carried.skip_lead_r before.fresh_r)) in
    let (answer, fresh_c) =
      skip_newlines-IsSent r.0.skip_lead cout sent_c r.0.utf8_pend r.2
        (rw carried.utf8_pend before.answer)
        (rw carried.utf8_pend (λ h. elim (carried.skip_lead h) [
          | inl old ↦ before.fresh_c old
          | inr thinking ↦
              nothing_yet began tool_open text rout cout s.hold (sent_c ++ s.utf8_pend) s.phase
                ready thinking before.answer
        ])) in
    (
      routed,
      record { reasoning = reasoning; fresh_r = fresh_r; answer = answer; fresh_c = fresh_c },
      carried.await_think,
    )

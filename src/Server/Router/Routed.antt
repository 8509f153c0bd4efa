-- ===== src/Server/Router/Routed.antt =====
-- The router as a whole: where each part of the text went.
use questwend.Prelude.{
  ℕ, suc, ◌+◌, ◌-◌, ◌≡◌, refl, sym, ap, ◌∙◌, inl, inr, [], ◌++◌, append_assoc, Bytes, true, false,
  length, take, drop, find, Option-cases,
}
use mathlib.Core.Path.{subst}
use questwend.Chat.Trim.{is_ws, drop_end}
use questwend.Server.Router.{Phase, reason, content, tool, Router, think_close, route}
use questwend.Server.Router.Find.{IsAbsent, find-none, find-some}
use questwend.Server.Router.Channel.{
  IsSafe, IsClosed, IsSafe-start, IsSafe-grow, scan-none, scan-some, scan_none-IsOpen, closed_parts,
  scan_some-IsClosed,
}
use questwend.Server.Stream.{marker_holdback}

-- The text before the content: none where the text began as content, the reasoning up to its end where
-- it began as reasoning.
pub data IsLed : Phase → Bytes → Bytes → Type 0 where
  at_once : IsLed content [] []
  reasoned : {text rout : Bytes} → IsClosed think_close text rout → IsLed reason text rout

-- The text so far, by what went out as reasoning and as content and by what is held.
pub data IsReady (began : Phase) (tool_open text rout cout hold : Bytes) : Phase → Type 0 where
  in_reason :
      began ≡ reason
      → text ≡ rout ++ hold
      → IsSafe think_close rout hold
      → cout ≡ []
      → IsReady began tool_open text rout cout hold reason
  in_content :
      (before : Bytes)
      → IsLed began before rout
      → text ≡ before ++ (cout ++ hold)
      → IsSafe tool_open cout hold
      → IsReady began tool_open text rout cout hold content
  in_tool :
      (before body : Bytes)
      → IsLed began before rout
      → text ≡ before ++ (body ++ hold)
      → IsClosed tool_open body cout
      → IsReady began tool_open text rout cout hold tool

-- The marker that ends the phase is not held.
unfoldable pub IsQuiet : Bytes → Bytes → Phase → Type 0
IsQuiet tool_open hold reason = IsAbsent think_close hold
IsQuiet tool_open hold content = IsAbsent tool_open hold
IsQuiet tool_open hold tool = Unit

abbrev pub IsRouted : Phase → Bytes → Bytes → Bytes → Bytes → Router → Type 0
IsRouted began tool_open text rout cout s =
    IsReady began tool_open text rout cout s.hold s.phase × IsQuiet tool_open s.hold s.phase

pub IsReady-grow :
    (began : Phase) (tool_open text rout cout hold piece : Bytes) (phase : Phase)
    → IsReady began tool_open text rout cout hold phase
    → IsReady began tool_open (text ++ piece) rout cout (hold ++ piece) phase
IsReady-grow began tool_open text rout cout hold piece reason
      (in_reason start parts safe none_sent) =
    in_reason start (ap (λ s. s ++ piece) parts ∙ append_assoc rout hold piece)
      (IsSafe-grow think_close rout hold piece safe) none_sent
IsReady-grow began tool_open text rout cout hold piece content (in_content before led parts safe) =
    in_content before led
      (ap (λ s. s ++ piece) parts
        ∙ append_assoc before (cout ++ hold) piece
        ∙ ap (λ s. before ++ s) (append_assoc cout hold piece))
      (IsSafe-grow tool_open cout hold piece safe)
IsReady-grow began tool_open text rout cout hold piece tool (in_tool before body led parts closed) =
    in_tool before body led
      (ap (λ s. s ++ piece) parts
        ∙ append_assoc before (body ++ hold) piece
        ∙ ap (λ s. before ++ s) (append_assoc body hold piece))
      closed

-- What the loop leaves.
abbrev pub Ends : Phase → Bytes → Bytes → Bytes → Bytes → Router × Bytes × Bytes → Type 0
Ends began tool_open text rout cout r =
    IsRouted began tool_open text (rout ++ r.1) (cout ++ r.2) r.0

route-tool :
    (began : Phase) (tool_open text R C : Bytes) (rounds : ℕ) (s : Router) (rout cout : Bytes)
    → s.phase ≡ tool
    → IsReady began tool_open text (R ++ rout) (C ++ cout) s.hold s.phase
    → Ends began tool_open text R C (route tool_open (suc rounds) s rout cout)
unfolding route IsQuiet
route-tool began tool_open text R C rounds s rout cout e ready =
    let stop : route tool_open (suc rounds) s rout cout ≡ (s, rout, cout) = simp (e, route) in
    rw stop (ready, rw e tt)

route-content :
    (began : Phase) (tool_open text R C : Bytes) (rounds : ℕ) (s : Router) (rout cout : Bytes)
    → s.phase ≡ content
    → IsReady began tool_open text (R ++ rout) (C ++ cout) s.hold content
    → Ends began tool_open text R C (route tool_open (suc (suc rounds)) s rout cout)
unfolding route IsQuiet
route-content began tool_open text R C rounds s rout cout e (in_content before led parts safe) =
    elim (Option-cases (find s.hold tool_open 0)) [
      | inl none_found ↦
          let keep = length s.hold - marker_holdback s.hold tool_open in
          let absent = find-none tool_open s.hold none_found in
          let after = scan_none-IsOpen tool_open (C ++ cout) s.hold keep refl safe absent in
          let stop : route tool_open (suc (suc rounds)) s rout cout
              ≡ (record s { hold = drop keep s.hold }, rout, cout ++ take keep s.hold) =
            simp (e, route, scan-none tool_open s.hold none_found) in
          rw stop (
            rw e (
              in_content before led
                  (parts
                    ∙ ap (λ t. before ++ t)
                        (after.parts
                          ∙ ap (λ t. t ++ drop keep s.hold)
                              (append_assoc C cout (take keep s.hold))))
                  (subst (λ t. IsSafe tool_open t (drop keep s.hold))
                    (append_assoc C cout (take keep s.hold)) after.safe),
              after.absent,
            ))
      | inr (p, found) ↦
          let (here, first) = find-some tool_open s.hold p found in
          let after = scan_some-IsClosed tool_open (C ++ cout) s.hold p safe here first in
          let next = record s {
            phase = tool;
            skip_lead = false;
            hold = drop (p + length tool_open) s.hold;
          } in
          let on : route tool_open (suc (suc rounds)) s rout cout
              ≡ route tool_open (suc rounds) next rout (cout ++ drop_end is_ws (take p s.hold)) =
            simp (e, route, scan-some tool_open s.hold p found) in
          rw on (
            route-tool began tool_open text R C rounds next rout
              (cout ++ drop_end is_ws (take p s.hold)) refl
              (in_tool before ((C ++ cout) ++ (take p s.hold ++ tool_open)) led
                (parts ∙ ap (λ t. before ++ t) (closed_parts tool_open (C ++ cout) s.hold p here))
                (subst (IsClosed tool_open ((C ++ cout) ++ (take p s.hold ++ tool_open)))
                  (append_assoc C cout (drop_end is_ws (take p s.hold))) after)))
    ]

route-reason :
    (began : Phase) (tool_open text R C : Bytes) (rounds : ℕ) (s : Router) (rout cout : Bytes)
    → s.phase ≡ reason
    → IsReady began tool_open text (R ++ rout) (C ++ cout) s.hold reason
    → Ends began tool_open text R C (route tool_open (suc (suc (suc rounds))) s rout cout)
unfolding route IsQuiet
route-reason began tool_open text R C rounds s rout cout e (in_reason start parts safe none_sent) =
    elim (Option-cases (find s.hold think_close 0)) [
      | inl none_found ↦
          let keep = length s.hold - marker_holdback s.hold think_close in
          let absent = find-none think_close s.hold none_found in
          let after = scan_none-IsOpen think_close (R ++ rout) s.hold keep refl safe absent in
          let stop : route tool_open (suc (suc (suc rounds))) s rout cout
              ≡ (record s { hold = drop keep s.hold }, rout ++ take keep s.hold, cout) =
            simp (e, route, scan-none think_close s.hold none_found) in
          rw stop (
            rw e (
              in_reason start
                  (parts
                    ∙ after.parts
                    ∙ ap (λ t. t ++ drop keep s.hold) (append_assoc R rout (take keep s.hold)))
                  (subst (λ t. IsSafe think_close t (drop keep s.hold))
                    (append_assoc R rout (take keep s.hold)) after.safe)
                  none_sent,
              after.absent,
            ))
      | inr (p, found) ↦
          let (here, first) = find-some think_close s.hold p found in
          let after = scan_some-IsClosed think_close (R ++ rout) s.hold p safe here first in
          let rest = drop (p + length think_close) s.hold in
          let next = record s { phase = content; skip_lead = true; hold = rest } in
          let out = drop_end is_ws (take p s.hold) in
          let on : route tool_open (suc (suc (suc rounds))) s rout cout
              ≡ route tool_open (suc (suc rounds)) next (rout ++ out) cout =
            simp (e, route, scan-some think_close s.hold p found) in
          let before = (R ++ rout) ++ (take p s.hold ++ think_close) in
          rw on (
            route-content began tool_open text R C rounds next (rout ++ out) cout refl (
              in_content before
                (subst (λ b. IsLed b before (R ++ (rout ++ out))) (sym start)
                  (reasoned (subst (IsClosed think_close before) (append_assoc R rout out) after)))
                (parts
                  ∙ closed_parts think_close (R ++ rout) s.hold p here
                  ∙ ap (λ t. before ++ (t ++ rest)) (sym none_sent))
                (subst (λ t. IsSafe tool_open t rest) (sym none_sent)
                  (IsSafe-start tool_open rest))))
    ]

pub route-IsRouted :
    (began : Phase) (tool_open text R C : Bytes) (s : Router) (phase : Phase)
    → s.phase ≡ phase
    → IsReady began tool_open text (R ++ []) (C ++ []) s.hold phase
    → Ends began tool_open text R C (route tool_open 3 s [] [])
route-IsRouted began tool_open text R C s reason e ready =
    route-reason began tool_open text R C 0 s [] [] e ready
route-IsRouted began tool_open text R C s content e ready =
    route-content began tool_open text R C 1 s [] [] e ready
route-IsRouted began tool_open text R C s tool e ready =
    route-tool began tool_open text R C 2 s [] [] e (rw e ready)

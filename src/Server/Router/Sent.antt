-- ===== src/Server/Router/Sent.antt =====
-- What is sent of a channel: all that is routed to it but newlines at its front, in the end.
use questwend.Prelude.{
  ℕ, zero, suc, ◌≡◌, refl, sym, ap, ◌∙◌, ◌⊎◌, inl, inr, [], ◌∷◌, ◌++◌, append_assoc, append-nil,
  Bytes, Bool, true, false, length, take-append-drop, All, All-append, arith, Bool-cases,
}
use questwend.Chat.Trim.{is_newline, drop_while}
use questwend.Server.Router.{
  Phase, reason, content, tool, Router, think_close, scan, route, skip_newlines,
}
use questwend.Server.Stream.{utf8_clip}

abbrev IsNewline : ℕ → Type 0
IsNewline c = is_newline c ≡ true

-- What was routed is newlines and then what was sent or is pending.
pub record IsSent (routed sent : Bytes) : Type 0 where
  pub lead : Bytes
  pub newlines : All IsNewline lead
  pub parts : routed ≡ lead ++ sent

-- What `drop_while` takes off the front.
pub drop_while-front :
    (p : ℕ → Bool) (s : Bytes)
    → (front : Bytes) × (s ≡ front ++ drop_while p s) × All (λ c. p c ≡ true) front
unfolding drop_while
drop_while-front p [] = ([], refl, tt)
drop_while-front p (c ∷ s) = elim (Bool-cases (p c)) [
  | inl here ↦
      let (front, parts, all) = drop_while-front p s in
      rw here (c ∷ front, ap (λ t. c ∷ t) parts, (here, all))
  | inr not_here ↦ rw not_here ([], refl, tt)
]

utf8_clip-parts : (pend piece : Bytes) → let r = utf8_clip pend piece in r.0 ++ r.1 ≡ pend ++ piece
unfolding utf8_clip
utf8_clip-parts pend piece = take-append-drop _ (pend ++ piece)

-- While newlines are skipped nothing was sent.
abbrev pub IsFresh : Bool → Bytes → Type 0
IsFresh skip sent = skip ≡ true → sent ≡ []

-- One more piece of a channel.
pub skip_newlines-IsSent :
    (skip : Bool) (routed sent pend out : Bytes)
    → IsSent routed (sent ++ pend)
    → IsFresh skip (sent ++ pend)
    → let (rest, skip') = skip_newlines skip out in
      let (now, pend') = utf8_clip pend rest in
      IsSent (routed ++ out) ((sent ++ now) ++ pend') × IsFresh skip' ((sent ++ now) ++ pend')
unfolding skip_newlines
skip_newlines-IsSent false routed sent pend out before fresh =
    let r = utf8_clip pend out in
    let same : (sent ++ r.0) ++ r.1 ≡ (sent ++ pend) ++ out =
      append_assoc sent r.0 r.1
      ∙ ap (λ t. sent ++ t) (utf8_clip-parts pend out)
      ∙ sym (append_assoc sent pend out) in
    (
      record {
        lead = before.lead;
        newlines = before.newlines;
        parts =
            ap (λ t. t ++ out) before.parts
            ∙ append_assoc before.lead (sent ++ pend) out
            ∙ ap (λ t. before.lead ++ t) (sym same);
      },
      λ h. absurd (ground arith),
    )
skip_newlines-IsSent true routed sent pend out before fresh =
    let rest = drop_while is_newline out in
    let (front, cut, all) = drop_while-front is_newline out in
    let r = utf8_clip pend rest in
    let nothing = fresh refl in
    let same : (sent ++ r.0) ++ r.1 ≡ rest =
      append_assoc sent r.0 r.1
      ∙ ap (λ t. sent ++ t) (utf8_clip-parts pend rest)
      ∙ sym (append_assoc sent pend rest)
      ∙ ap (λ t. t ++ rest) nothing in
    let skipped : routed ≡ before.lead =
      before.parts ∙ ap (λ t. before.lead ++ t) nothing ∙ append-nil before.lead in
    (
      record {
        lead = before.lead ++ front;
        newlines = All-append IsNewline before.lead front before.newlines all;
        parts =
            ap (λ t. t ++ out) skipped
            ∙ ap (λ t. before.lead ++ t) cut
            ∙ sym (append_assoc before.lead front rest)
            ∙ ap (λ t. (before.lead ++ front) ++ t) (sym same);
      },
      λ h. same ∙ nil_of_length rest (ground arith),
    )
  where
    nil_of_length : (s : Bytes) → length s ≡ 0 → s ≡ []
    nil_of_length [] h = refl
    nil_of_length (c ∷ s) h = absurd (omega arith)

-- What the loop leaves of the other members of the state.
pub record IsCarried (s r : Router) : Type 0 where
  pub pend_r : r.pend_r ≡ s.pend_r
  pub utf8_pend : r.utf8_pend ≡ s.utf8_pend
  pub skip_lead_r : r.skip_lead_r ≡ s.skip_lead_r
  pub await_think : r.await_think ≡ s.await_think
  pub skip_lead : r.skip_lead ≡ true → (s.skip_lead ≡ true) ⊎ (s.phase ≡ reason)

route-IsCarried_at :
    (tool_open : Bytes) (rounds : ℕ) (s : Router) (rout cout : Bytes) (phase : Phase)
    → s.phase ≡ phase
    → IsCarried s (route tool_open rounds s rout cout).0
unfolding route
route-IsCarried_at tool_open zero s rout cout phase e = record {
  pend_r = refl;
  utf8_pend = refl;
  skip_lead_r = refl;
  await_think = refl;
  skip_lead = λ h. inl h;
}
route-IsCarried_at tool_open (suc rounds) s rout cout tool e =
    let stop : route tool_open (suc rounds) s rout cout ≡ (s, rout, cout) = simp (e, route) in
    rw stop (record {
      pend_r = refl;
      utf8_pend = refl;
      skip_lead_r = refl;
      await_think = refl;
      skip_lead = λ h. inl h;
    })
route-IsCarried_at tool_open (suc rounds) s rout cout content e =
    let (out, hold, found) = scan tool_open s.hold in
    let next = record s { phase = tool; skip_lead = false; hold = hold } in
    elim (Bool-cases found) [
      | inl there ↦
          let on : route tool_open (suc rounds) s rout cout
              ≡ route tool_open rounds next rout (cout ++ out) =
            simp (e, route, there) in
          let rest = route-IsCarried_at tool_open rounds next rout (cout ++ out) tool refl in
          rw on (record {
            pend_r = rest.pend_r;
            utf8_pend = rest.utf8_pend;
            skip_lead_r = rest.skip_lead_r;
            await_think = rest.await_think;
            skip_lead = λ h. elim (rest.skip_lead h) [
              | inl a ↦ absurd (ground arith)
              | inr b ↦ absurd (ground arith)
            ];
          })
      | inr not_there ↦
          let stop : route tool_open (suc rounds) s rout cout
              ≡ (record s { hold = hold }, rout, cout ++ out) =
            simp (e, route, not_there) in
          rw stop (record {
            pend_r = refl;
            utf8_pend = refl;
            skip_lead_r = refl;
            await_think = refl;
            skip_lead = λ h. inl h;
          })
    ]
route-IsCarried_at tool_open (suc rounds) s rout cout reason e =
    let (out, hold, found) = scan think_close s.hold in
    let next = record s { phase = content; skip_lead = true; hold = hold } in
    elim (Bool-cases found) [
      | inl there ↦
          let on : route tool_open (suc rounds) s rout cout
              ≡ route tool_open rounds next (rout ++ out) cout =
            simp (e, route, there) in
          let rest = route-IsCarried_at tool_open rounds next (rout ++ out) cout content refl in
          rw on (record {
            pend_r = rest.pend_r;
            utf8_pend = rest.utf8_pend;
            skip_lead_r = rest.skip_lead_r;
            await_think = rest.await_think;
            skip_lead = λ h. inr e;
          })
      | inr not_there ↦
          let stop : route tool_open (suc rounds) s rout cout
              ≡ (record s { hold = hold }, rout ++ out, cout) =
            simp (e, route, not_there) in
          rw stop (record {
            pend_r = refl;
            utf8_pend = refl;
            skip_lead_r = refl;
            await_think = refl;
            skip_lead = λ h. inl h;
          })
    ]

pub route-IsCarried :
    (tool_open : Bytes) (rounds : ℕ) (s : Router) (rout cout : Bytes)
    → IsCarried s (route tool_open rounds s rout cout).0
route-IsCarried tool_open rounds s rout cout =
    route-IsCarried_at tool_open rounds s rout cout s.phase refl

-- ===== src/Server/Router/Channel.antt =====
-- One channel of the router: the text so far, what went out of it and what is held, until the marker
-- that ends the channel.
use questwend.Prelude.{
  ℕ, zero, suc, ◌+◌, ◌-◌, ◌≤◌, ◌<◌, ◌≡◌, refl, sym, ap, ◌∙◌, inl, inr, [], ◌∷◌, ◌++◌, append_assoc,
  append-nil, Bytes, Bool, true, false, none, some, length, length-append, length-drop, length-take,
  get_or, ◌==◌, take, drop, take-append-drop, begins_with, begins_with-split, find, All, arith,
  Bool-cases,
}
use mathlib.Core.Path.{subst}
use questwend.Prelude.Indexing.{drop-append, get_or-drop, drop-drop}
use questwend.Chat.Trim.{is_ws, drop_end, end_without}
use questwend.Server.Router.{scan}
use questwend.Server.Router.Find.{IsAbsentBelow, IsAbsent, begins_with-append}
use questwend.Server.Stream.{marker_holdback}
use questwend.Server.Stream.Holdback.{marker_holdback-safe}

-- Nothing that follows makes the marker stand at a place that went out.
pub IsSafe : Bytes → Bytes → Bytes → Type 0
IsSafe marker out hold =
    (later : Bytes) (p : ℕ)
    → begins_with marker (drop p (out ++ (hold ++ later))) ≡ true
    → length out ≤ p

-- The channel is open: all of the text went out or is held, and the marker is not in it.
pub record IsOpen (marker text out hold : Bytes) : Type 0 where
  pub parts : text ≡ out ++ hold
  pub safe : IsSafe marker out hold
  pub absent : IsAbsent marker hold

-- The channel is closed: the text is what went out, white space and the marker, which stands at no
-- earlier place.
pub record IsClosed (marker text out : Bytes) : Type 0 where
  pub blank : Bytes
  pub parts : text ≡ out ++ (blank ++ marker)
  pub white : All (λ c. is_ws c ≡ true) blank
  pub first : IsAbsentBelow marker text (length out + length blank)

end_without-trailing :
    (p : ℕ → Bool) (s : Bytes) (e i : ℕ) → end_without p s e ≤ i → i < e → p (get_or s i 0) ≡ true
unfolding end_without
end_without-trailing p s zero i ge lt = absurd (omega arith)
end_without-trailing p s (suc e) i ge lt = elim (Bool-cases (p (get_or s e 0))) [
  | inl here ↦ elim (Bool-cases (i == e)) [
    | inl last ↦ let at : i ≡ e = ground arith in rw at here
    | inr before ↦
        end_without-trailing p s e i (subst (λ n. n ≤ i) (rw here refl) ge) (ground arith)
  ]
  | inr not_here ↦ absurd (ground arith)
]

All-indexed :
    (p : ℕ → Bool) (s : Bytes)
    → ((i : ℕ) → i < length s → p (get_or s i 0) ≡ true)
    → All (λ c. p c ≡ true) s
All-indexed p [] h = tt
All-indexed p (c ∷ s) h = (h 0 (omega arith), All-indexed p s (λ i lt. h (suc i) (omega arith)))

-- What `drop_end` takes off the end.
drop_end-blank :
    (p : ℕ → Bool) (s : Bytes)
    → (blank : Bytes) × (s ≡ drop_end p s ++ blank) × All (λ c. p c ≡ true) blank
unfolding drop_end
drop_end-blank p s =
    let stop = end_without p s (length s) in
    (
      drop stop s,
      sym (take-append-drop stop s),
      All-indexed p (drop stop s) (λ i lt. rw (get_or-drop stop s i (stop + i) 0 refl) (
          end_without-trailing p s (length s) (stop + i) (omega arith)
            (omega (arith, length-drop stop s)))),
    )

drop-front : (front s : Bytes) (p : ℕ) → drop (length front + p) (front ++ s) ≡ drop p s
drop-front [] s p = ap (λ (n : ℕ). drop n s) {x = 0 + p} (omega arith)
drop-front (c ∷ front) s p =
    ap (λ (n : ℕ). drop n (c ∷ (front ++ s))) {x = length (c ∷ front) + p}
      {y = suc (length front + p)} (omega arith)
    ∙ drop-front front s p

-- A place behind what went out is one in what is held.
shifted :
    (marker out s : Bytes) (p : ℕ)
    → length out ≤ p
    → begins_with marker (drop p (out ++ s)) ≡ begins_with marker (drop (p - length out) s)
shifted marker out s p le =
    let e : p ≡ length out + (p - length out) = omega arith in
    ap (λ (n : ℕ). begins_with marker (drop n (out ++ s))) e
    ∙ ap (begins_with marker) (drop-front out s (p - length out))

-- A channel at its start.
pub IsSafe-start : (marker hold : Bytes) → IsSafe marker [] hold
unfolding IsSafe
IsSafe-start marker hold later p h = omega arith

pub IsSafe-grow :
    (marker out hold piece : Bytes) → IsSafe marker out hold → IsSafe marker out (hold ++ piece)
unfolding IsSafe
IsSafe-grow marker out hold piece safe later p h =
    safe (piece ++ later) p (rw (← append_assoc hold piece later) h)

pub scan-none :
    (marker hold : Bytes)
    → find hold marker 0 ≡ none
    → scan marker hold ≡ (
      take (length hold - marker_holdback hold marker) hold,
      drop (length hold - marker_holdback hold marker) hold,
      false,
    )
unfolding scan
scan-none marker hold e = rw (e, scan) refl

pub scan-some :
    (marker hold : Bytes) (p : ℕ)
    → find hold marker 0 ≡ some p
    → scan marker hold ≡ (drop_end is_ws (take p hold), drop (p + length marker) hold, true)
unfolding scan
scan-some marker hold p e = rw (e, scan) refl

-- The round in which the marker is not found.
pub scan_none-IsOpen :
    (marker out hold : Bytes) (keep : ℕ)
    → keep ≡ length hold - marker_holdback hold marker
    → IsSafe marker out hold
    → IsAbsent marker hold
    → IsOpen marker (out ++ hold) (out ++ take keep hold) (drop keep hold)
unfolding IsSafe
scan_none-IsOpen marker out hold keep kept safe absent = record {
  parts =
      ap (λ s. out ++ s) (sym (take-append-drop keep hold))
      ∙ sym (append_assoc out (take keep hold) (drop keep hold));
  safe = λ later p h.
      let joined : (out ++ take keep hold) ++ (drop keep hold ++ later) ≡ out ++ (hold ++ later) =
        append_assoc out (take keep hold) (drop keep hold ++ later)
        ∙ ap (λ s. out ++ s)
            (sym (append_assoc (take keep hold) (drop keep hold) later)
              ∙ ap (λ s. s ++ later) (take-append-drop keep hold)) in
      let there = subst (λ s. begins_with marker (drop p s) ≡ true) joined h in
      let behind = safe later p there in
      let held =
        marker_holdback-safe hold later marker (p - length out)
          (sym (shifted marker out (hold ++ later) p behind) ∙ there) (absent (p - length out)) in
      omega (arith, held, behind, kept, length-append out (take keep hold), length-take keep hold);
  absent = λ p. rw (drop-drop p keep (keep + p) hold refl) (absent (keep + p));
}

-- The text around a marker.
around :
    (marker hold : Bytes) (p : ℕ)
    → begins_with marker (drop p hold) ≡ true
    → (take p hold ++ marker) ++ drop (p + length marker) hold ≡ hold
around marker hold p found =
    let cut = begins_with-split marker (drop p hold) found in
    append_assoc (take p hold) marker (drop (p + length marker) hold)
    ∙ ap (λ s. take p hold ++ s)
        (ap (λ s. marker ++ s) (sym (drop-drop (length marker) p (p + length marker) hold refl))
          ∙ cut)
    ∙ take-append-drop p hold

pub closed_parts :
    (marker out hold : Bytes) (p : ℕ)
    → begins_with marker (drop p hold) ≡ true
    → out ++ hold ≡ (out ++ (take p hold ++ marker)) ++ drop (p + length marker) hold
closed_parts marker out hold p found =
    ap (λ s. out ++ s) (sym (around marker hold p found))
    ∙ sym (append_assoc out (take p hold ++ marker) (drop (p + length marker) hold))

-- The round in which the marker is found.
pub scan_some-IsClosed :
    (marker out hold : Bytes) (p : ℕ)
    → IsSafe marker out hold
    → begins_with marker (drop p hold) ≡ true
    → IsAbsentBelow marker hold p
    → IsClosed marker (out ++ (take p hold ++ marker)) (out ++ drop_end is_ws (take p hold))
unfolding IsSafe
scan_some-IsClosed marker out hold p safe found first =
    let front = take p hold in
    let text = out ++ (front ++ marker) in
    let rest = drop (p + length marker) hold in
    let (blank, split, white) = drop_end-blank is_ws front in
    let size = ap length split ∙ length-append (drop_end is_ws front) blank in
    let outs = length-append out (drop_end is_ws front) in
    record {
      blank = blank;
      parts =
          ap (λ s. out ++ (s ++ marker)) split
          ∙ ap (λ s. out ++ s) (append_assoc (drop_end is_ws front) blank marker)
          ∙ sym (append_assoc out (drop_end is_ws front) (blank ++ marker));
      white = white;
      first = λ q lt. elim (Bool-cases (begins_with marker (drop q text))) [
        | inr none_here ↦ none_here
        | inl here ↦
            let low : q < length out + p = omega (arith, size, outs, length-take p hold) in
            let inside : q ≤ length text = omega (
              arith,
              size,
              outs,
              length-append out (front ++ marker),
              length-append front marker,
            ) in
            let longer = begins_with-append marker (drop q text) rest here in
            let whole : drop q text ++ rest ≡ drop q (out ++ (hold ++ [])) =
              sym (drop-append q text rest inside)
              ∙ ap (drop q) (
                  sym (closed_parts marker out hold p found)
                  ∙ ap (λ s. out ++ s) (sym (append-nil hold))) in
            let there = subst (λ s. begins_with marker s ≡ true) whole longer in
            let behind = safe [] q there in
            let held : begins_with marker (drop (q - length out) hold) ≡ true =
              sym (shifted marker out hold q behind)
              ∙ subst (λ s. begins_with marker (drop q (out ++ s)) ≡ true) (append-nil hold)
                  there in
            ground (arith, held, first (q - length out) (omega (arith, low, behind)))
      ];
    }

-- ===== src/Server/Router/Opening.antt =====
-- The wait for a `<think>` at the front of a reply, `await_open`.
use questwend.Prelude.{
  ℕ, ◌<◌, ◌≡◌, refl, sym, ap, ◌∙◌, inl, inr, [], ◌∷◌, ◌++◌, Bytes, Bool, true, false, length,
  length-drop, drop, All, ltb, ◌==◌, ◌&&◌, begins_with, begins_with-split, bytes_eq, take, arith,
  Bool-cases, none, some,
}
use questwend.Chat.Trim.{drop_while}
use questwend.Server.Reasoning.{is_blank}
use questwend.Server.Router.{reason, Router, think_open, await_open}
use questwend.Server.Router.Sent.{drop_while-front}
use questwend.Server.Stream.Holdback.{begun}

abbrev IsBlank : ℕ → Type 0
IsBlank c = is_blank c ≡ true

-- White space and a part of `<think>`, or nothing of it.
pub record IsUndecided (text : Bytes) : Type 0 where
  pub blank : Bytes
  pub head : Bytes
  pub parts : text ≡ blank ++ head
  pub white : All IsBlank blank
  pub later : Bytes
  pub begins : head ++ later ≡ think_open
  pub lacks : 0 < length later

-- White space, `<think>` and the reply behind it.
pub record IsOpened (text body : Bytes) : Type 0 where
  pub blank : Bytes
  pub parts : text ≡ blank ++ (think_open ++ body)
  pub white : All IsBlank blank

-- Whatever follows, the text does not open with white space and `<think>`.
abbrev pub IsUnopened : Bytes → Type 0
IsUnopened text =
    (later : Bytes) → begins_with think_open (drop_while is_blank (text ++ later)) ≡ false

nil_of_length : (s : Bytes) → length s ≡ 0 → s ≡ []
nil_of_length [] h = refl
nil_of_length (c ∷ s) h = absurd (omega arith)

begins_with-take :
    (head marker : Bytes)
    → bytes_eq head (take (length head) marker) ≡ true
    → begins_with head marker ≡ true
unfolding bytes_eq begins_with
begins_with-take [] marker h = refl
begins_with-take (c ∷ head) [] h = ground arith
begins_with-take (c ∷ head) (m ∷ marker) h = ground (arith, begins_with-take head marker)

-- Text that is neither `<think>` nor a part of it stays so.
not_opening :
    (head later : Bytes)
    → ltb (length head) 7 && begins_with head think_open ≡ false
    → begins_with think_open head ≡ false
    → begins_with think_open (head ++ later) ≡ false
unfolding think_open
not_opening head later long not_here = elim (Bool-cases (begins_with think_open (head ++ later))) [
  | inr never ↦ never
  | inl there ↦
      let (short, same) = begun think_open head later there not_here in
      let part = begins_with-take head think_open same in ground arith
]

-- What `await_open` decides on the text held.
pub data IsDecided (s : Router) : Type 0 where
  undecided : await_open s ≡ none → IsUndecided s.hold → IsDecided s
  opened :
      (body : Bytes)
      → await_open s
        ≡ some (record s { await_think = false; hold = body; phase = reason; skip_lead_r = true })
      → IsOpened s.hold body
      → IsDecided s
  unopened :
      await_open s ≡ some (record s { await_think = false }) → IsUnopened s.hold → IsDecided s

drop_while-append :
    (p : ℕ → Bool) (s later : Bytes)
    → 0 < length (drop_while p s)
    → drop_while p (s ++ later) ≡ drop_while p s ++ later
unfolding drop_while
drop_while-append p [] later h = absurd (omega arith)
drop_while-append p (c ∷ s) later h = elim (Bool-cases (p c)) [
  | inl here ↦ rw here (drop_while-append p s later (ground arith))
  | inr not_here ↦ rw not_here refl
]

pub await_open-IsDecided : (s : Router) → s.await_think ≡ true → IsDecided s
unfolding await_open think_open
await_open-IsDecided s waits =
    let head = drop_while is_blank s.hold in
    let (blank, parts, white) = drop_while-front is_blank s.hold in
    elim (Bool-cases (length head == 0)) [
      | inl empty ↦ undecided (simp (waits, await_open, empty)) (record {
        blank = blank;
        head = head;
        parts = parts;
        white = white;
        later = think_open;
        begins = ap (λ t. t ++ think_open) (nil_of_length head (ground arith));
        lacks = omega arith;
      })
      | inr some_head ↦ elim (Bool-cases (ltb (length head) 7 && begins_with head think_open)) [
        | inl short ↦ undecided (simp (waits, await_open, some_head, short)) (record {
          blank = blank;
          head = head;
          parts = parts;
          white = white;
          later = drop (length head) think_open;
          begins = begins_with-split head think_open (ground arith);
          lacks = let size = length-drop (length head) think_open in ground (arith, size);
        })
        | inr long ↦ elim (Bool-cases (begins_with think_open head)) [
          | inl here ↦
              opened (drop 7 head) (simp (waits, await_open, some_head, long, here)) (record {
                blank = blank;
                parts = parts ∙ ap (λ t. blank ++ t) (sym (begins_with-split think_open head here));
                white = white;
              })
          | inr not_here ↦ unopened (simp (waits, await_open, some_head, long, not_here)) (λ later.
              rw (drop_while-append is_blank s.hold later (ground arith))
                (not_opening head later long not_here))
        ]
      ]
    ]

-- ===== src/Claims/Locate.antt =====
-- The search for the text of an anchor that moved.
use mathlib.Core.Path.{subst}
use chronos_code.Base.{
  Text, text_eq, ℕ, ◌+◌, ◌-◌, ◌≤◌, ◌<◌, ◌^◌, Bool, true, false, ◌&&◌, leb, List, length, some, ◌≡◌,
  refl, sym, ap, ◌∙◌, arith, Bool-cases, ◌⊎◌, inl, inr, if◌then◌else◌,
}
use chronos_code.Base.Int.{ℤ, pos, negsuc, ltb_ℤ, add64, add64_pos, sub64_pos}
use chronos_code.Claims.Anchor.{
  Anchor, hash_span, last_line, width_of, rounds, try_windows, relocate, locate,
}
use chronos_code.Claims.Window.{apart, last_line_pos, IsNearest, NoneBefore, try_windows-IsBest}

-- A span of lines of a file: the anchors that `Add` accepts, for lines that are numbered far below
-- the bound of an `int64`.
pub record IsSpan (a : Anchor) (lines : List Text) : Type 0 where
  pub first : ℕ
  pub last : ℕ
  pub starts : a.start_line ≡ pos first
  pub ends : a.end_line ≡ pos last
  pub positive : 1 ≤ first
  pub forward : first ≤ last
  pub bounded : last + length lines < 2 ^ 61

width_of_span :
    (a : Anchor) (lines : List Text) (p : IsSpan a lines) → width_of a ≡ pos (p.last + 1 - p.first)
width_of_span a lines p =
    rw (p.starts, p.ends)
      (ap (λ d. add64 d (pos 1)) (sub64_pos p.last p.first (omega (arith, p.bounded)) p.forward)
        ∙ add64_pos (p.last - p.first) 1 (omega (arith, p.bounded))
        ∙ ap pos (omega (arith, p.forward)))

-- The first number of a line at which no window of the width starts in the file.
abbrev pub past_windows : List Text → ℕ → ℕ
past_windows lines width = length lines + 2 - width

-- The anchor at another place.
abbrev pub moved_to : Anchor → ℕ → ℕ → Anchor
moved_to a first last = record a { start_line = pos first; end_line = pos last }

-- What `locate` answers for a span that is `first` to `last`.
abbrev pub Located : (Text → Text) → List Text → Anchor → ℕ → ℕ → Anchor × Bool → Type 0
Located hash lines a first last answer =
    ((answer ≡ (a, false))
      × NoneBefore hash lines a (last + 1 - first) (past_windows lines (last + 1 - first)))
    ⊎ ((b : ℕ) × (answer ≡ (moved_to a b (b + (last - first)), true))
        × IsNearest hash lines a first (last + 1 - first) (past_windows lines (last + 1 - first)) b)

-- The search, from the result of its loop.
relocate-found :
    (hash : Text → Text) (lines : List Text) (a : Anchor) (p : IsSpan a lines) (best d : ℤ)
    → try_windows hash lines a
        (pos (p.last + 1 - p.first))
        (rounds (length lines) (pos (p.last + 1 - p.first)))
        1
        (pos 0, negsuc 0)
      ≡ (best, d)
    → relocate hash lines a ≡ (
        if ltb_ℤ d (pos 0) then (a, false) else (
          record a { start_line = best; end_line = last_line best (pos (p.last + 1 - p.first)) },
          true,
        ))
unfolding relocate
relocate-found hash lines a p best d h = rw (relocate, width_of_span a lines p, h) refl

IsNearest-earlier :
    (hash : Text → Text) (lines : List Text) (a : Anchor) (own width stop b : ℕ)
    → length lines + 1 < stop + width
    → IsNearest hash lines a own width stop b
    → IsNearest hash lines a own width (past_windows lines width) b
IsNearest-earlier hash lines a own width stop b past h = record {
  positive = h.positive;
  before = omega (arith, h.inside);
  inside = h.inside;
  matches = h.matches;
  nearest = λ k p q m. h.nearest k p (omega arith) m;
}

relocate-Located :
    (hash : Text → Text) (lines : List Text) (a : Anchor) (p : IsSpan a lines)
    → Located hash lines a p.first p.last (relocate hash lines a)
relocate-Located hash lines a p =
    let width = p.last + 1 - p.first in
    let (stop, past, best) =
      try_windows-IsBest hash lines a p.first width p.starts (omega (arith, p.forward))
        (omega (arith, p.forward, p.bounded, p.positive)) (rounds (length lines) (pos width)) 1
        (pos 0, negsuc 0) (omega arith) (omega arith) (omega arith)
        (inl (refl, λ k q r. absurd (omega arith))) in
    elim best [
      | inl (e, nothing) ↦
          inl
            (relocate-found hash lines a p (pos 0) (negsuc 0) e, λ k q r. nothing k q (omega arith))
      | inr (b, e, near) ↦ inr (
        b,
        relocate-found hash lines a p (pos b) (pos (apart b p.first)) e
            ∙ ground (
              arith,
              last_line_pos b width near.positive (omega (arith, near.inside, p.bounded)),
              p.forward,
            ),
        IsNearest-earlier hash lines a p.first width stop b past near,
      )
    ]

locate-relocates :
    (hash : Text → Text) (lines : List Text) (a : Anchor) (p : IsSpan a lines)
    → locate hash (some lines) a ≡ (
        if leb p.last (length lines)
          && text_eq (hash_span hash lines (pos p.first) (pos p.last)) a.hash
        then (a, true)
        else relocate hash lines a)
unfolding locate
locate-relocates hash lines a p = rw (locate, p.starts, p.ends) (ground (arith, p.positive))

-- `locate` on a span of lines. Where the text of the anchor stands at its lines, they stay. Otherwise
-- they move to a window of the same number of lines that has the anchor's hash, the nearest one, and
-- the anchor is reported gone exactly if no window of the file has its hash. It is for line numbers
-- that with the length of the file stay below 2^61, and a file that can be read.
pub locate-Located :
    (hash : Text → Text) (lines : List Text) (a : Anchor) (p : IsSpan a lines)
    → Located hash lines a p.first p.last (locate hash (some lines) a)
locate-Located hash lines a p =
    elim (Bool-cases (
      leb p.last (length lines)
      && text_eq (hash_span hash lines (pos p.first) (pos p.last)) a.hash)) [
        | inr gone ↦
            subst (Located hash lines a p.first p.last)
              (sym (rw gone at (locate-relocates hash lines a p))) (relocate-Located hash lines a p)
        | inl stays ↦
            let last : p.first + (p.last - p.first) ≡ p.last = omega (arith, p.forward) in
            let stop : p.first + (p.last + 1 - p.first) - 1 ≡ p.last = omega (arith, p.forward) in
            inr (
              p.first,
              (rw stays at (locate-relocates hash lines a p)) ∙ ground (arith, p.starts, p.ends),
              record {
                positive = p.positive;
                before = ground (arith, p.forward, p.positive);
                inside = ground (arith, p.forward, p.positive);
                matches = rw stop (ground arith);
                nearest = λ k q r m. omega arith;
              },
            )
      ]

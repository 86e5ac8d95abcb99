-- ===== src/Claims/Window.antt =====
-- The loop over the windows of a file: what it has found at every start.
use mathlib.Core.Path.{subst}
use chronos_code.Base.{
  Text, text_eq, ℕ, zero, suc, ◌+◌, ◌-◌, ◌≤◌, ◌<◌, ◌^◌, Bool, true, false, ◌||◌, ltb, leb, List,
  length, ◌≡◌, sym, ap, ◌∙◌, arith, Bool-cases, ◌⊎◌, inl, inr, if◌then◌else◌,
}
use chronos_code.Base.Int.{ℤ, pos, negsuc, ltb_ℤ, add64, sub64}
use chronos_code.Claims.Anchor.{Anchor, hash_span, distance, last_line, try_window, try_windows}

-- How far two lines are apart.
abbrev pub apart : ℕ → ℕ → ℕ
apart m n = (m - n) + (n - m)

distance_pos : (m n : ℕ) → m < 2 ^ 62 → n < 2 ^ 62 → distance (pos m) (pos n) ≡ pos (apart m n)
unfolding distance sub64
distance_pos m n h k = ground arith

pub last_line_pos :
    (start width : ℕ)
    → 1 ≤ start
    → start + width < 2 ^ 63
    → last_line (pos start) (pos width) ≡ pos (start + width - 1)
unfolding last_line add64 sub64
last_line_pos start width h k = ground arith

-- The window of `width` lines at `k` has the hash of the anchor.
abbrev pub matches_at : (Text → Text) → List Text → Anchor → ℕ → ℕ → Bool
matches_at hash lines a width k =
    text_eq (hash_span hash lines (pos k) (pos (k + width - 1))) a.hash

-- Of the windows before `start`, `b` is one that has the hash of the anchor, and the nearest one.
pub record IsNearest (hash : Text → Text) (lines : List Text) (a : Anchor) (own width start b : ℕ)
    : Type 0 where
  pub positive : 1 ≤ b
  pub before : b < start
  pub inside : b + width ≤ length lines + 1
  pub matches : matches_at hash lines a width b ≡ true
  pub nearest :
      (k : ℕ)
      → 1 ≤ k
      → k < start
      → matches_at hash lines a width k ≡ true
      → apart b own ≤ apart k own

-- None of the windows before `start` has the hash of the anchor.
abbrev pub NoneBefore : (Text → Text) → List Text → Anchor → ℕ → ℕ → Type 0
NoneBefore hash lines a width start =
    (k : ℕ) → 1 ≤ k → k < start → matches_at hash lines a width k ≡ false

module _ (hash : Text → Text) (lines : List Text) (a : Anchor) (own width : ℕ)
    (starts : a.start_line ≡ pos own) (wide : 1 ≤ width)
    (bound : own + width + length lines < 2 ^ 62) where
  -- What the loop has found when it comes to `start`.
  abbrev pub IsBest : ℕ → ℤ × ℤ → Type 0
  IsBest start p =
      ((p ≡ (pos 0, negsuc 0)) × NoneBefore hash lines a width start)
      ⊎ ((b : ℕ) × (p ≡ (pos b, pos (apart b own))) × IsNearest hash lines a own width start b)

  none_next :
      (start : ℕ)
      → matches_at hash lines a width start ≡ false
      → NoneBefore hash lines a width start
      → NoneBefore hash lines a width (start + 1)
  none_next start miss h k p q = ground (arith, h k p)

  IsNearest-next :
      (start b : ℕ)
      → IsNearest hash lines a own width start b
      → (matches_at hash lines a width start ≡ true → apart b own ≤ apart start own)
      → IsNearest hash lines a own width (start + 1) b
  IsNearest-next start b h far = record {
    positive = h.positive;
    before = omega (arith, h.before);
    inside = h.inside;
    matches = h.matches;
    nearest = λ k p q m. elim (Bool-cases (ltb k start)) [
      | inl old ↦ h.nearest k p (ground arith) m
      | inr new ↦
          let same : k ≡ start = ground arith in
          rw same (far (subst (λ j. matches_at hash lines a width j ≡ true) same m))
    ];
  }

  -- The window at `start`, which is nearer than those before.
  IsNearest-new :
      (start : ℕ)
      → 1 ≤ start
      → start + width ≤ length lines + 1
      → matches_at hash lines a width start ≡ true
      → ((k : ℕ)
          → 1 ≤ k
          → k < start
          → matches_at hash lines a width k ≡ true
          → apart start own ≤ apart k own)
      → IsNearest hash lines a own width (start + 1) start
  IsNearest-new start p i m far = record {
    positive = p;
    before = omega arith;
    inside = i;
    matches = m;
    nearest = λ k q r n. elim (Bool-cases (ltb k start)) [
      | inl old ↦ far k q (ground arith) n
      | inr new ↦ let same : k ≡ start = ground arith in rw same (omega arith)
    ];
  }

  -- One round, with its arithmetic done.
  try_window-eq :
      (start : ℕ) (best best_distance : ℤ)
      → 1 ≤ start
      → start + width ≤ length lines + 1
      → try_window hash lines a (pos width) (pos start) (best, best_distance) ≡ (
          if matches_at hash lines a width start
          then if ltb_ℤ best_distance (pos 0) || ltb_ℤ (pos (apart start own)) best_distance
            then (pos start, pos (apart start own))
            else (best, best_distance)
          else (best, best_distance))
  unfolding try_window
  try_window-eq start best best_distance p i =
      let e : last_line (pos start) (pos width) ≡ pos (start + width - 1) =
        last_line_pos start width p (omega (arith, bound)) in
      let d : distance (pos start) a.start_line ≡ pos (apart start own) =
        ap (distance (pos start)) starts
        ∙ distance_pos start own (omega (arith, bound)) (omega (arith, bound)) in
      rw (try_window, e, d) (ground arith)

  try_window-IsBest :
      (start : ℕ) (p : ℤ × ℤ)
      → 1 ≤ start
      → start + width ≤ length lines + 1
      → IsBest start p
      → IsBest (start + 1) (try_window hash lines a (pos width) (pos start) p)
  try_window-IsBest start p q i (inl (e, none_yet)) =
      let step =
        ap (try_window hash lines a (pos width) (pos start)) e
        ∙ try_window-eq start (pos 0) (negsuc 0) q i in
      elim (Bool-cases (matches_at hash lines a width start)) [
        | inr miss ↦ inl (ground (arith, step, miss), none_next start miss none_yet)
        | inl hit ↦ inr (
          start,
          ground (arith, step, hit),
          IsNearest-new start q i hit (λ k x y z. absurd (ground (arith, none_yet k x y))),
        )
      ]
  try_window-IsBest start p q i (inr (b, e, near)) =
      let step =
        ap (try_window hash lines a (pos width) (pos start)) e
        ∙ try_window-eq start (pos b) (pos (apart b own)) q i in
      elim (Bool-cases (matches_at hash lines a width start)) [
        | inr miss ↦ inr (
          b,
          ground (arith, step, miss),
          IsNearest-next start b near (λ m. absurd (ground (arith, miss))),
        )
        | inl hit ↦ elim (Bool-cases (ltb (apart start own) (apart b own))) [
          | inl nearer ↦ inr (
            start,
            ground (arith, step, hit, nearer),
            IsNearest-new start q i hit (λ k x y z. let old = near.nearest k x y z in ground arith),
          )
          | inr farther ↦ inr (
            b,
            ground (arith, step, hit, farther),
            IsNearest-next start b near (λ m. ground arith),
          )
        ]
      ]

  -- One round of the loop, with its arithmetic done.
  try_windows-eq :
      (fuel start : ℕ) (p : ℤ × ℤ)
      → 1 ≤ start
      → start ≤ length lines + 2
      → try_windows hash lines a (pos width) (suc fuel) start p ≡ (
          if leb (start + width) (length lines + 1)
          then try_windows hash lines a
              (pos width)
              fuel
              (start + 1)
              (try_window hash lines a (pos width) (pos start) p)
          else p)
  unfolding try_windows
  try_windows-eq fuel start p q small =
      let e : last_line (pos start) (pos width) ≡ pos (start + width - 1) =
        last_line_pos start width q (omega (arith, bound)) in
      rw (try_windows, e) (ground arith)

  -- The loop ends at a start whose window leaves the file.
  pub try_windows-IsBest :
      (fuel start : ℕ) (p : ℤ × ℤ)
      → 1 ≤ start
      → start ≤ length lines + 2
      → length lines + 2 ≤ fuel + start + width
      → IsBest start p
      → (stop : ℕ) × (length lines + 1 < stop + width)
        × IsBest stop (try_windows hash lines a (pos width) fuel start p)
  unfolding try_windows
  try_windows-IsBest zero start p q small enough best = (start, omega arith, best)
  try_windows-IsBest (suc fuel) start p q small enough best =
      let next = try_windows-eq fuel start p q small in
      elim (Bool-cases (leb (start + width) (length lines + 1))) [
        | inr out ↦ (start, ground arith, subst (IsBest start) (sym (rw out at next)) best)
        | inl inside ↦
            let (stop, past, found) =
              try_windows-IsBest fuel (start + 1)
                (try_window hash lines a (pos width) (pos start) p) (omega arith) (ground arith)
                (omega arith) (try_window-IsBest start p q (ground arith) best) in
            (stop, past, subst (IsBest stop) (sym (rw inside at next)) found)
      ]

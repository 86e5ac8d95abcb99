-- ===== src/Claims/Anchor.antt =====
-- Anchors and the search for their text: internal/claims/anchor.go. The hash is a parameter. A line
-- number is an `int64`; a file that cannot be read is `none`.
use chronos_code.Base.{
  Text, text_eq, is_empty, ℕ, zero, suc, ◌+◌, ◌-◌, Bool, true, false, ◌&&◌, ◌||◌, not, List, [],
  ◌∷◌, ◌++◌, length, take, drop, ◌==◌, trim_space, if◌then◌else◌, Option, none, some, Result, ok,
  err,
}
use chronos_code.Base.Int.{ℤ, pos, negsuc, pos_part, leb_ℤ, ltb_ℤ, add64, sub64}
use chronos_code.FilePath.{is_rooted, join, join_slash, rel, starts_up}

pub record Anchor : Type 0 where
  pub path : Text
  pub start_line : ℤ
  pub end_line : ℤ
  pub symbol : Text
  pub hash : Text

-- The errors of the package.
pub data ClaimError : Type 0 where
  path_required path_outside text_required anchor_required : ClaimError
  unreadable out_of_range : Anchor → ClaimError
  unknown_parent : Text → ClaimError
  nil_pointer : ClaimError

abbrev is_zero : ℤ → Bool
is_zero n = leb_ℤ n (pos 0) && leb_ℤ (pos 0) n

abbrev whole_file : Anchor → Bool
whole_file a = is_zero a.start_line

unfoldable pub normalize_path : Text → Text → Result ClaimError Text
normalize_path root path =
    if is_empty (trim_space path) then err path_required else elim (rel root (clean_of path)) [
      | none ↦ err path_outside
      | some [] ↦ err path_outside
      | some (e ∷ es) ↦ if starts_up (e ∷ es) then err path_outside else ok (join_slash (e ∷ es))
    ]
  where
    clean_of : Text → Text
    clean_of p = if is_rooted p then p else join root p

-- `strings.Split(s, "\n")`.
unfoldable pub file_lines : Text → List Text
file_lines [] = [] ∷ []
file_lines (c ∷ s) = if c == b'\n' then [] ∷ file_lines s else put c (file_lines s)
  where
    put : ℕ → List Text → List Text
    put x [] = (x ∷ []) ∷ []
    put x (line ∷ rest) = (x ∷ line) ∷ rest

-- The lines, each with its newline.
unfoldable pub span_bytes : List Text → Text
span_bytes [] = []
span_bytes (line ∷ lines) = line ++ (b'\n' ∷ span_bytes lines)

-- How far the window at `start` is from the anchor.
unfoldable pub distance : ℤ → ℤ → ℤ
distance start own = let d = sub64 start own in if ltb_ℤ d (pos 0) then sub64 (pos 0) d else d

-- The last line of a window.
unfoldable pub last_line : ℤ → ℤ → ℤ
last_line start width = sub64 (add64 start width) (pos 1)

abbrev pub width_of : Anchor → ℤ
width_of a = add64 (sub64 a.end_line a.start_line) (pos 1)

-- The rounds of the loop over the windows of a file, where no sum overflows.
abbrev pub rounds : ℕ → ℤ → ℕ
rounds n (pos width) = n + 1 - width
rounds n (negsuc width) = n + 2 + width

module _ (hash : Text → Text) where
  -- The lines from `first` to `last`, for a `first` of at least 1 and a `last` inside the file.
  unfoldable pub hash_span : List Text → ℤ → ℤ → Text
  hash_span lines first last =
      hash
        (span_bytes (take (pos_part last + 1 - pos_part first) (drop (pos_part first - 1) lines)))

  unfoldable pub hash_anchor : List Text → Anchor → Result ClaimError Text
  hash_anchor lines a =
      if whole_file a
      then ok (hash_span lines (pos 1) (pos (length lines)))
      else if ltb_ℤ a.start_line (pos 1)
          || (ltb_ℤ a.end_line a.start_line || ltb_ℤ (pos (length lines)) a.end_line)
      then err (out_of_range a)
      else ok (hash_span lines a.start_line a.end_line)

  -- One round of the loop: the best window and its distance.
  unfoldable pub try_window : List Text → Anchor → ℤ → ℤ → ℤ × ℤ → ℤ × ℤ
  try_window lines a width start (best, best_distance) =
      if not (text_eq (hash_span lines start (last_line start width)) a.hash)
      then (best, best_distance)
      else if ltb_ℤ best_distance (pos 0) || ltb_ℤ (distance start a.start_line) best_distance
      then (start, distance start a.start_line)
      else (best, best_distance)

  -- The loop, from `start`, with fuel for its rounds.
  unfoldable pub try_windows : List Text → Anchor → ℤ → ℕ → ℕ → ℤ × ℤ → ℤ × ℤ
  try_windows lines a width zero start best = best
  try_windows lines a width (suc fuel) start best =
      let next =
        try_windows lines a width fuel (start + 1) (try_window lines a width (pos start) best) in
      if leb_ℤ (last_line (pos start) width) (pos (length lines)) then next else best

  unfoldable pub relocate : List Text → Anchor → Anchor × Bool
  relocate lines a =
      let (best, best_distance) =
        try_windows lines a (width_of a) (rounds (length lines) (width_of a)) 1 (pos 0, negsuc 0) in
      if ltb_ℤ best_distance (pos 0)
      then (a, false)
      else (record a { start_line = best; end_line = last_line best (width_of a) }, true)

  unfoldable pub locate : Option (List Text) → Anchor → Anchor × Bool
  locate none a = (a, false)
  locate (some lines) a =
      if whole_file a
      then (a, text_eq (hash_span lines (pos 1) (pos (length lines))) a.hash)
      else if leb_ℤ a.end_line (pos (length lines))
          && (leb_ℤ (pos 1) a.start_line
              && text_eq (hash_span lines a.start_line a.end_line) a.hash)
      then (a, true)
      else relocate lines a

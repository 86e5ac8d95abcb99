-- ===== src/Retention.antt =====
-- Which records a retention policy removes: `selectCandidates` of internal/retention/retention.go. The
-- items come newest first, and a map is an association list. A time is its nanoseconds; the sum of a
-- time and an age does not overflow, as in the package `time`.
pub mod Selected
pub mod Limits
use mathlib.Core.List.{reverse}
use chronos_code.Base.{
  Text, ℕ, ◌+◌, Bool, ◌&&◌, ◌||◌, not, List, [], ◌∷◌, length, drop, ltb, select, if◌then◌else◌,
}
use chronos_code.Base.Int.{ℤ, pos, pos_part, ltb_ℤ, add64, sub64}
use chronos_code.Base.Dict.{Dict, insert}

pub record RetentionPolicy : Type 0 where
  pub max_age : ℤ
  pub max_count : ℤ
  pub max_bytes : ℤ

pub record Item : Type 0 where
  pub scope : Text
  pub key : Text
  pub updated_at : ℕ
  pub bytes : ℤ

abbrev pub is_positive : ℤ → Bool
is_positive n = ltb_ℤ (pos 0) n

abbrev pub is_enabled : RetentionPolicy → Bool
is_enabled p = is_positive p.max_age || (is_positive p.max_count || is_positive p.max_bytes)

-- `item.UpdatedAt.Before(now.Add(-policy.MaxAge))`, for an age above 0.
abbrev pub is_old : RetentionPolicy → ℕ → Item → Bool
is_old p now item = ltb (item.updated_at + pos_part p.max_age) now

unfoldable pub select_all : List Item → Dict Item → Dict Item
select_all [] selected = selected
select_all (item ∷ items) selected = select_all items (insert item.key item selected)

unfoldable pub total_bytes : ℤ → List Item → ℤ
total_bytes total [] = total
total_bytes total (item ∷ items) = total_bytes (add64 total item.bytes) items

-- The loop from the oldest item on; the items come oldest first.
unfoldable pub select_bytes : ℤ → ℤ → List Item → Dict Item → Dict Item
select_bytes max total [] selected = selected
select_bytes max total (item ∷ items) selected =
    let next = select_bytes max (sub64 total item.bytes) items (insert item.key item selected) in
    if ltb_ℤ max total then next else selected

abbrev pub select_old : RetentionPolicy → ℕ → List Item → Dict Item
select_old p now items =
    if is_positive p.max_age then select_all (select (is_old p now) items) [] else []

abbrev pub select_beyond : RetentionPolicy → List Item → Dict Item → Dict Item
select_beyond p items selected =
    if is_positive p.max_count && ltb_ℤ p.max_count (pos (length items))
    then select_all (drop (pos_part p.max_count) items) selected
    else selected

abbrev pub select_heavy : RetentionPolicy → List Item → Dict Item → Dict Item
select_heavy p items selected =
    if is_positive p.max_bytes
    then select_bytes p.max_bytes (total_bytes (pos 0) items) (reverse items) selected
    else selected

unfoldable pub select_candidates : List Item → RetentionPolicy → ℕ → Dict Item
select_candidates items p now =
    if not (is_enabled p)
    then []
    else select_heavy p items (select_beyond p items (select_old p now items))

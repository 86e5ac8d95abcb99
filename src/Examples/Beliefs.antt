-- ===== src/Examples/Beliefs.antt =====
-- Two claims about a file, and a change of that file.
use chronos_code.Base.{
  trim_space, trim_left, trim_right, Text, codes, text_eq, ℕ, true, List, [], ◌∷◌, if◌then◌else◌,
  Option, none, some, Result, ok, err, ◌≡◌, refl, arith,
}
use chronos_code.Base.Int.{pos, add64, sub64}
use chronos_code.Base.Dict.{Dict, lookup, insert, has_key}
use chronos_code.FilePath.{rel, join, clean, join_slash, parts, strip_shared}
use chronos_code.Decimal.{format}
use chronos_code.Claims.Anchor.{
  Anchor, ClaimError, normalize_path, file_lines, hash_anchor, hash_span, span_bytes, locate,
  relocate, try_windows, try_window, last_line, distance,
}
use chronos_code.Claims.Store.{
  Status, Claim, Change, Input, Entry, Store, no_reason, new_store, claim_id, first_not_live,
  apply_derived, find_parents, filter_of, pin, pin_all, add, recheck, refresh_claim, refresh_claims,
  refresh,
}
use chronos_code.Claims.Refreshed.{IsRefreshed, refresh-IsRefreshed}
use chronos_code.Claims.Kept.{IsWellFormed, new_store-IsWellFormed, refresh-IsWellFormed}
use chronos_code.Claims.Added.{IsAdded, add-IsAdded}
use chronos_code.Claims.Locate.{IsSpan, Located, locate-Located}

abbrev as_is : Text → Text
as_is t = t

abbrev old_files : Text → Option Text
old_files path = if text_eq path (codes "a.go") then some (codes "f\ng\n") else none

abbrev new_files : Text → Option Text
new_files path = if text_eq path (codes "a.go") then some (codes "h\ng\n") else none

abbrev anchor : Text → ℕ → Anchor
anchor hash line = record {
  path = codes "a.go";
  start_line = pos line;
  end_line = pos line;
  symbol = [];
  hash = hash;
}

abbrev belief : Text → ℕ → List Text → Input
belief text line parents = record {
  text = text;
  anchors = anchor [] line ∷ [];
  derived_from = parents;
  evidence_id = [];
}

abbrev claim : Text → Text → Anchor → List Text → Claim
claim id text a parents = record {
  id = id;
  text = text;
  anchors = a ∷ [];
  derived_from = parents;
  evidence_id = [];
  status = Status.live;
  reason = no_reason;
}

abbrev first_claim : Claim
first_claim = claim (codes "c1") (codes "p") (anchor (codes "f\n") 1) []

abbrev second_claim : Claim
second_claim = claim (codes "c2") (codes "q") (anchor (codes "g\n") 2) (codes "c1" ∷ [])

abbrev empty_store : Store
empty_store = new_store (codes "/w")

abbrev one_store : Store
one_store = record {
  root = codes "/w";
  entries = (codes "c1", record { claim = first_claim; own_reason = no_reason }) ∷ [];
  order = codes "c1" ∷ [];
  next = pos 1;
}

abbrev two_store : Store
two_store = record {
  root = codes "/w";
  entries =
      (codes "c1", record { claim = first_claim; own_reason = no_reason })
      ∷ (codes "c2", record { claim = second_claim; own_reason = no_reason })
      ∷ [];
  order = codes "c1" ∷ codes "c2" ∷ [];
  next = pos 2;
}

first_run : add as_is old_files empty_store (belief (codes " p") 1 []) ≡ ok (one_store, first_claim)
unfolding add trim_space pin_all pin normalize_path rel join hash_anchor file_lines find_parents
    has_key apply_derived first_not_live lookup insert claim_id add64 hash_span format span_bytes
    text_eq trim_left trim_right clean join_slash parts strip_shared
first_run = refl

second_run :
    add as_is old_files one_store (belief (codes "q") 2 (codes "c1" ∷ codes "c1" ∷ []))
    ≡ ok (two_store, second_claim)
unfolding add trim_space pin_all pin normalize_path rel join hash_anchor file_lines find_parents
    has_key apply_derived first_not_live lookup insert claim_id add64 hash_span format span_bytes
    text_eq trim_left trim_right clean join_slash parts strip_shared
second_run = refl

one-IsAdded : IsAdded empty_store 0 one_store first_claim
one-IsAdded =
    add-IsAdded as_is old_files empty_store (belief (codes " p") 1 []) 0
      (new_store-IsWellFormed (codes "/w")) (omega arith) first_run

add-IsAdded_example : IsAdded one_store 1 two_store second_claim
add-IsAdded_example =
    add-IsAdded as_is old_files one_store (belief (codes "q") 2 (codes "c1" ∷ codes "c1" ∷ [])) 1
      one-IsAdded.well_formed (omega arith) second_run

refresh-IsRefreshed_example :
    (r : Dict Entry) × (cs : List Change) × (refresh as_is new_files two_store []
      ≡ ok (record two_store { entries = r }, cs))
    × IsRefreshed as_is new_files true [] two_store.entries two_store.order r cs
unfolding filter_of
refresh-IsRefreshed_example =
    refresh-IsRefreshed as_is new_files two_store [] add-IsAdded_example.well_formed.ordered

refresh-IsWellFormed_example :
    (r : Dict Entry) × (cs : List Change) × (refresh as_is new_files two_store []
      ≡ ok (record two_store { entries = r }, cs))
    × IsWellFormed (record two_store { entries = r }) 2
refresh-IsWellFormed_example =
    refresh-IsWellFormed as_is new_files two_store [] 2 add-IsAdded_example.well_formed

-- The changed line makes its claim stale, and the claim derived from it doubted.
abbrev reported : Result ClaimError (Store × List Change) → List Change
reported (ok (s, cs)) = cs
reported (err e) = []

refresh_run :
    reported (refresh as_is new_files two_store [])
    ≡ (record { id = codes "c1"; before = Status.live; after = Status.stale })
      ∷ (record { id = codes "c2"; before = Status.live; after = Status.doubted })
      ∷ []
unfolding refresh filter_of refresh_claims refresh_claim recheck locate relocate try_windows
    try_window last_line distance hash_span span_bytes file_lines text_eq add64 sub64 lookup insert
    apply_derived first_not_live
refresh_run = refl

-- The line `g` has moved from line 1 to line 2.
abbrev moved : Anchor
moved = anchor (codes "g\n") 1

abbrev moved_span : IsSpan moved (codes "h" ∷ codes "g" ∷ codes "" ∷ [])
moved_span = record {
  first = 1;
  last = 1;
  starts = refl;
  ends = refl;
  positive = omega arith;
  forward = omega arith;
  bounded = omega arith;
}

locate-Located_example :
    Located as_is
      (codes "h" ∷ codes "g" ∷ codes "" ∷ [])
      moved
      1
      1
      (locate as_is (some (codes "h" ∷ codes "g" ∷ codes "" ∷ [])) moved)
locate-Located_example =
    locate-Located as_is (codes "h" ∷ codes "g" ∷ codes "" ∷ []) moved moved_span

locate_run :
    locate as_is (some (codes "h" ∷ codes "g" ∷ codes "" ∷ [])) moved
    ≡ (anchor (codes "g\n") 2, true)
unfolding locate relocate try_windows try_window last_line distance hash_span span_bytes text_eq
    add64 sub64
locate_run = refl

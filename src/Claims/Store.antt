-- ===== src/Claims/Store.antt =====
-- The store of claims: internal/claims/store.go. The contents of the workspace's files are a parameter,
-- by their path under the root; what follows a nil pointer is an error. The ID of a claim that `Sprintf`
-- prints is that of a counter on 64 bits.
use chronos_code.Base.{
  trim_space, Text, text_eq, has_text, is_empty, any, suc, Bool, true, false, ◌||◌, not, List, [],
  ◌∷◌, ◌++◌, if◌then◌else◌, Option, none, some, Result, ok, err, refuse, ◌>>=◌, ◌>>◌,
}
use mathlib.Core.Option
use chronos_code.Base.Int.{ℤ, pos, negsuc, add64}
use chronos_code.Base.Dict.{Dict, lookup, insert, has_key}
use chronos_code.Decimal.{format}
use chronos_code.Claims.Anchor.{
  Anchor, ClaimError, text_required, anchor_required, unreadable, unknown_parent, nil_pointer,
  normalize_path, file_lines, hash_anchor, locate,
}

-- `unset` is the empty string.
pub data Status : Type 0 where
  unset live stale doubted : Status
  other : Text → Status

-- A reason, with the parts that its text names.
pub data Reason : Type 0 where
  no_reason : Reason
  anchor_changed : Anchor → Reason
  derived_from : Status → Text → Reason
  saved : Text → Reason

pub record Claim : Type 0 where
  pub id : Text
  pub text : Text
  pub anchors : List Anchor
  pub derived_from : List Text
  pub evidence_id : Text
  pub status : Status
  pub reason : Reason

pub record Input : Type 0 where
  pub text : Text
  pub anchors : List Anchor
  pub derived_from : List Text
  pub evidence_id : Text

pub record Change : Type 0 where
  pub id : Text
  pub before : Status
  pub after : Status

pub record Entry : Type 0 where
  pub claim : Claim
  pub own_reason : Reason

pub record Store : Type 0 where
  pub root : Text
  pub entries : Dict Entry
  pub order : List Text
  pub next : ℤ

abbrev pub status_eq : Status → Status → Bool
status_eq Status.unset Status.unset = true
status_eq Status.live Status.live = true
status_eq Status.stale Status.stale = true
status_eq Status.doubted Status.doubted = true
status_eq (Status.other t) (Status.other u) = text_eq t u
status_eq _ _ = false

abbrev pub is_no_reason : Reason → Bool
is_no_reason no_reason = true
is_no_reason _ = false

abbrev pub new_store : Text → Store
new_store root = record { root = root; entries = []; order = []; next = pos 0 }

unfoldable pub claim_id : ℤ → Text
claim_id (pos n) = b'c' ∷ format n
claim_id (negsuc n) = b'c' ∷ b'-' ∷ format (suc n)

-- The first parent that is not live, with its status.
unfoldable pub first_not_live : Dict Entry → List Text → Result ClaimError (Option (Status × Text))
first_not_live entries [] = ok none
first_not_live entries (parent ∷ parents) =
    let rest = first_not_live entries parents in
    elim (lookup parent entries) [
      | none ↦ err nil_pointer
      | some p ↦
          if status_eq p.claim.status Status.live then rest else ok (some (p.claim.status, parent))
    ]

abbrev pub set_status : Entry → Status → Reason → Entry
set_status e status reason = record e {
  claim = record e.claim { status = status; reason = reason };
}

unfoldable pub apply_derived : Dict Entry → Entry → Result ClaimError Entry
apply_derived entries e =
    if not (is_no_reason e.own_reason) then ok (set_status e Status.stale e.own_reason) else do
      parent ← first_not_live entries e.claim.derived_from
      ok (elim parent [
        | none ↦ set_status e Status.live no_reason
        | some (status, id) ↦ set_status e Status.doubted (Reason.derived_from status id)
      ])

-- What is reported of a status.
abbrev pub change_of : Text → Status → Status → List Change
change_of id before after =
    if status_eq after before then [] else (record { id = id; before = before; after = after }) ∷ []

-- `Get`.
abbrev pub get_claim : Store → Text → Option Claim
get_claim s id = Option.map (λ e. e.claim) (lookup id s.entries)

-- `List`.
unfoldable pub list_claims : Dict Entry → List Text → Result ClaimError (List Claim)
list_claims entries [] = ok []
list_claims entries (id ∷ order) = elim (lookup id entries) [
  | none ↦ err nil_pointer
  | some e ↦ do claims ← list_claims entries order; ok (e.claim ∷ claims)
]

-- The loop over `DerivedFrom`, over the parents before.
unfoldable pub find_parents : Dict Entry → List Text → List Text → Result ClaimError (List Text)
find_parents entries seen [] = ok []
find_parents entries seen (id ∷ ids) =
    let again = find_parents entries seen ids in
    let rest = find_parents entries (id ∷ seen) ids in
    if has_text id seen
    then again
    else if not (has_key id entries)
    then err (unknown_parent id)
    else do parents ← rest; ok (id ∷ parents)

-- The paths of a call of `Refresh`, less those that are refused.
unfoldable pub filter_of : Text → List Text → List Text
filter_of root [] = []
filter_of root (path ∷ paths) = elim (normalize_path root path) [
  | ok rel ↦ rel ∷ filter_of root paths
  | err e ↦ filter_of root paths
]

abbrev pub new_entry : Text → Input → List Anchor → List Text → Entry
new_entry id input anchors parents = record {
  claim = record {
    id = id;
    text = trim_space input.text;
    anchors = anchors;
    derived_from = parents;
    evidence_id = input.evidence_id;
    status = Status.live;
    reason = no_reason;
  };
  own_reason = no_reason;
}

module _ (hash : Text → Text) (files : Text → Option Text) where
  abbrev pub read : Text → Option (List Text)
  read path = Option.map file_lines (files path)

  -- One round of the loop over the anchors of a new claim.
  unfoldable pub pin : Text → Anchor → Result ClaimError Anchor
  pin root a = do
    path ← normalize_path root a.path
    elim (read path) [
      | none ↦ err (unreadable (record a { path = path }))
      | some lines ↦ do
        hashed ← hash_anchor hash lines (record a { path = path })
        ok (record a { path = path; hash = hashed })
    ]

  unfoldable pub pin_all : Text → List Anchor → Result ClaimError (List Anchor)
  pin_all root [] = ok []
  pin_all root (a ∷ as') = do pinned ← pin root a; rest ← pin_all root as'; ok (pinned ∷ rest)

  -- `Add`, with the claim that it returns.
  unfoldable pub add : Store → Input → Result ClaimError (Store × Claim)
  add s input = do
    refuse (is_empty (trim_space input.text)) text_required
    refuse (is_empty input.anchors) anchor_required
    anchors ← pin_all s.root input.anchors
    parents ← find_parents s.entries [] input.derived_from
    let next = add64 s.next (pos 1)
    let e = new_entry (claim_id next) input anchors parents
    let entries = insert (claim_id next) e s.entries
    e' ← apply_derived entries e
    ok (
      record s {
        entries = insert (claim_id next) e' entries;
        order = s.order ++ claim_id next ∷ [];
        next = next;
      },
      e'.claim,
    )

  -- The loop over the anchors of a claim that is touched: the anchors after it, and the reason.
  unfoldable pub recheck : List Anchor → List Anchor × Reason
  recheck [] = ([], no_reason)
  recheck (a ∷ as') =
      let (found, there) = locate hash (read a.path) a in
      let (rest, reason) = recheck as' in
      if there then (found ∷ rest, reason) else (a ∷ rest, anchor_changed a)

  abbrev pub is_touched : Bool → List Text → Entry → Bool
  is_touched everything filter e = any (λ a. everything || has_text a.path filter) e.claim.anchors

  abbrev pub recheck_entry : Entry → Entry
  recheck_entry e =
      let (anchors, reason) = recheck e.claim.anchors in
      record { claim = record e.claim { anchors = anchors }; own_reason = reason }

  -- One round of the loop of `Refresh`.
  unfoldable pub refresh_claim :
      Bool → List Text → Dict Entry → Text → Result ClaimError (Dict Entry × List Change)
  refresh_claim everything filter entries id = elim (lookup id entries) [
    | none ↦ err nil_pointer
    | some e ↦ do
      e' ← apply_derived entries (if is_touched everything filter e then recheck_entry e else e)
      ok (insert id e' entries, change_of id e.claim.status e'.claim.status)
  ]

  unfoldable pub refresh_claims :
      Bool → List Text → Dict Entry → List Text → Result ClaimError (Dict Entry × List Change)
  refresh_claims everything filter entries [] = ok (entries, [])
  refresh_claims everything filter entries (id ∷ order) = do
    first ← refresh_claim everything filter entries id
    rest ← refresh_claims everything filter first.0 order
    ok (rest.0, first.1 ++ rest.1)

  unfoldable pub refresh : Store → List Text → Result ClaimError (Store × List Change)
  refresh s paths = do
    done ← refresh_claims (is_empty paths) (filter_of s.root paths) s.entries s.order
    ok (record s { entries = done.0 }, done.1)

-- ===== src/Claims/Refreshed.antt =====
-- The statuses after `Refresh`.
use chronos_code.Base.{
  Text, text_eq, text_eq_iff, text_eq_sound, text_eq_refl, has_text, is_empty, any, all, not, ◌&&◌,
  ◌||◌, Bool, true, false, List, [], ◌∷◌, ◌++◌, if◌then◌else◌, Option, some, ok, ◌≡◌, refl, sym, ap,
  ◌∙◌, arith, Option-cases, inl, inr, Bool-cases,
}
use chronos_code.Base.Dict.{Dict, lookup, insert, lookup-insert, lookup-insert_self}
use chronos_code.Claims.Anchor.{Anchor, locate}
use chronos_code.Claims.Store.{
  Change, Entry, Store, change_of, is_no_reason, read, recheck, recheck_entry, is_touched,
  refresh_claim, refresh_claims, refresh, filter_of,
}
use chronos_code.Claims.Ordered.{
  all-same, parents_of, IsOrdered, IsOrdered-same, IsOrdered-once, is_known, is_live, verdict,
  apply_derived-verdict,
}

any-false {ℓ} : {A : Type ℓ} (xs : List A) → any (λ x. false) xs ≡ false
any-false [] = refl
any-false (x ∷ xs) = any-false xs

any-or {ℓ} :
    {A : Type ℓ} (f g : A → Bool) (xs : List A) → any (λ x. f x || g x) xs ≡ (any f xs || any g xs)
any-or f g [] = refl
any-or f g (x ∷ xs) = ground (arith, any-or f g xs)

module _ (hash : Text → Text) (files : Text → Option Text) where
  -- The text of the anchor is in its file.
  abbrev pub is_there : Anchor → Bool
  is_there a = (locate hash (read hash files a.path) a).1

  -- A path of the call names the file of one of the claim's anchors, or the call names every file
  -- and there is an anchor.
  abbrev pub is_named : Bool → List Text → List Anchor → Bool
  is_named everything paths anchors =
      everything && not (is_empty anchors) || any (λ p. any (λ a. text_eq a.path p) anchors) paths

  is_touched-is_named :
      (everything : Bool) (paths : List Text) (anchors : List Anchor)
      → any (λ a. everything || has_text a.path paths) anchors ≡ is_named everything paths anchors
  is_touched-is_named everything paths [] = ground (arith, any-false paths)
  is_touched-is_named everything paths (a ∷ anchors) = ground (
    arith,
    is_touched-is_named everything paths anchors,
    any-or (text_eq a.path) (λ p. any (λ b. text_eq b.path p) anchors) paths,
  )

  -- The claim's own anchors hold: all of them are found again if a path names the file of one, and
  -- otherwise they hold as before.
  abbrev pub own_holds : Bool → List Text → Entry → Bool
  own_holds everything filter e =
      if is_named everything filter e.claim.anchors
      then all is_there e.claim.anchors
      else is_no_reason e.own_reason

  recheck-all : (as' : List Anchor) → is_no_reason (recheck hash files as').1 ≡ all is_there as'
  unfolding recheck
  recheck-all [] = refl
  recheck-all (a ∷ as') = ground (arith, recheck-all as')

  refresh_claim-verdict :
      (everything : Bool) (filter : List Text) (m : Dict Entry) (id : Text) (e : Entry)
      → lookup id m ≡ some e
      → ((p : Text) → has_text p e.claim.derived_from ≡ true → is_known m p ≡ true)
      → (e' : Entry) × (refresh_claim hash files everything filter m id
          ≡ ok (insert id e' m, change_of id e.claim.status e'.claim.status))
        × (e'.claim.derived_from ≡ e.claim.derived_from)
        × (e'.claim.status
            ≡ verdict (own_holds everything filter e) (all (is_live m) e.claim.derived_from))
  unfolding refresh_claim
  refresh_claim-verdict everything filter m id e there known =
      let same = is_touched-is_named everything filter e.claim.anchors in
      elim (Bool-cases (is_touched hash files everything filter e)) [
        | inl touched ↦
            let (e', done, kept, status) =
              apply_derived-verdict m (recheck_entry hash files e) known in
            (
              e',
              rw (refresh_claim, there, touched, done) refl,
              kept,
              ground (arith, status, recheck-all e.claim.anchors, same),
            )
        | inr left ↦
            let (e', done, kept, status) = apply_derived-verdict m e known in
            (e', rw (refresh_claim, there, left, done) refl, kept, ground (arith, status, same))
      ]

  -- The claim has the status that its anchors and its parents' new statuses give it.
  pub record IsSettled (everything : Bool) (filter : List Text) (m r : Dict Entry) (id : Text)
      (e e' : Entry) : Type 0 where
    pub found : lookup id m ≡ some e
    pub refreshed : lookup id r ≡ some e'
    pub parents : e'.claim.derived_from ≡ e.claim.derived_from
    pub status :
        e'.claim.status
        ≡ verdict (own_holds everything filter e) (all (is_live r) e.claim.derived_from)

  abbrev change_between : Text → Option Entry → Option Entry → List Change
  change_between id (some e) (some e') = change_of id e.claim.status e'.claim.status
  change_between id _ _ = []

  -- The transitions between two states of the claims, in their order.
  abbrev pub changes : Dict Entry → Dict Entry → List Text → List Change
  changes m r [] = []
  changes m r (id ∷ ids) = change_between id (lookup id m) (lookup id r) ++ changes m r ids

  changes-same :
      (m n r : Dict Entry) (ids : List Text)
      → ((k : Text) → has_text k ids ≡ true → lookup k n ≡ lookup k m)
      → changes n r ids ≡ changes m r ids
  changes-same m n r [] same = refl
  changes-same m n r (id ∷ ids) same =
      let rest = changes-same m n r ids (λ k h. same k (ground arith)) in
      rw (rest, same id (ground (arith, text_eq_refl id))) refl

  -- A claim's new status does not change while the claims after it are refreshed.
  IsSettled-later :
      (everything : Bool) (filter : List Text) (m n r : Dict Entry) (id : Text) (e e' : Entry)
      → lookup id n ≡ lookup id m
      → IsSettled everything filter n r id e e'
      → IsSettled everything filter m r id e e'
  IsSettled-later everything filter m n r id e e' same h = record {
    found = sym same ∙ h.found;
    refreshed = h.refreshed;
    parents = h.parents;
    status = h.status;
  }

  -- What the loop owes, from a state `m` on.
  pub record IsRefreshed (everything : Bool) (filter : List Text) (m : Dict Entry) (ids : List Text)
      (r : Dict Entry) (cs : List Change) : Type 0 where
    pub unchanged : (k : Text) → has_text k ids ≡ false → lookup k r ≡ lookup k m
    pub settled :
        (k : Text)
        → has_text k ids ≡ true
        → (e : Entry) × (e' : Entry) × IsSettled everything filter m r k e e'
    pub reported : cs ≡ changes m r ids

  module _ (everything : Bool) (filter : List Text) where
    -- One claim, and then the claims after it.
    IsRefreshed-cons :
        (m r : Dict Entry) (id : Text) (ids : List Text) (cs : List Change) (e e' : Entry)
        → lookup id m ≡ some e
        → e'.claim.derived_from ≡ e.claim.derived_from
        → e'.claim.status
          ≡ verdict (own_holds everything filter e) (all (is_live m) e.claim.derived_from)
        → has_text id ids ≡ false
        → ((p : Text) → has_text p e.claim.derived_from ≡ true → has_text p (id ∷ ids) ≡ false)
        → IsRefreshed everything filter (insert id e' m) ids r cs
        → IsRefreshed everything filter m
            (id ∷ ids)
            r
            (change_of id e.claim.status e'.claim.status ++ cs)
    IsRefreshed-cons m r id ids cs e e' there kept status once elsewhere later = record {
      unchanged = unchanged;
      settled = settled;
      reported = reported;
    }
      where
        agree : (k : Text) → text_eq k id ≡ false → lookup k (insert id e' m) ≡ lookup k m
        agree k h = ground (arith, lookup-insert id k e' m, text_eq_iff k id, text_eq_iff id k)

        unchanged : (k : Text) → has_text k (id ∷ ids) ≡ false → lookup k r ≡ lookup k m
        unchanged k h = later.unchanged k (ground arith) ∙ agree k (ground arith)

        refreshed : lookup id r ≡ some e'
        refreshed = later.unchanged id once ∙ lookup-insert_self id e' m

        lives : (p : Text) → has_text p e.claim.derived_from ≡ true → is_live r p ≡ is_live m p
        lives p h = ground (arith, unchanged p (elsewhere p h))

        settled :
            (k : Text)
            → has_text k (id ∷ ids) ≡ true
            → (d : Entry) × (d' : Entry) × IsSettled everything filter m r k d d'
        settled k h = elim (Bool-cases (text_eq k id)) [
          | inl same ↦ (
            e,
            e',
            record {
              found = ap (λ j. lookup j m) (text_eq_sound k id same) ∙ there;
              refreshed = ap (λ j. lookup j r) (text_eq_sound k id same) ∙ refreshed;
              parents = kept;
              status =
                  status
                  ∙ ap (verdict (own_holds everything filter e))
                      (sym (all-same (is_live m) (is_live r) e.claim.derived_from lives));
            },
          )
          | inr other ↦
              let (d, d', s) = later.settled k (ground arith) in
              (
                d,
                d',
                IsSettled-later everything filter m (insert id e' m) r k d d' (agree k other) s,
              )
        ]

        reported : change_of id e.claim.status e'.claim.status ++ cs ≡ changes m r (id ∷ ids)
        reported =
            rw (there, refreshed)
              (ap (λ rest. change_of id e.claim.status e'.claim.status ++ rest)
                (later.reported
                  ∙ changes-same m (insert id e' m) r ids
                      (λ k h. agree k (ground (arith, text_eq_iff k id)))))

    refresh_claims-IsRefreshed :
        (m : Dict Entry) (before ids : List Text)
        → IsOrdered (parents_of m) before ids
        → ((p : Text) → has_text p before ≡ true → is_known m p ≡ true)
        → (r : Dict Entry) × (cs : List Change) × (refresh_claims hash files everything filter m ids
            ≡ ok (r, cs))
          × IsRefreshed everything filter m ids r cs
    unfolding refresh_claims
    refresh_claims-IsRefreshed m before [] ordered known = (
      m,
      [],
      refl,
      record { unchanged = λ k h. refl; settled = λ k h. absurd cc; reported = refl },
    )
    refresh_claims-IsRefreshed m before (id ∷ ids) ((ps, listed, in_front), (new, rest)) known =
        elim (Option-cases (lookup id m)) [
          | inl missing ↦ absurd (ground arith)
          | inr (e, there) ↦
              let same : e.claim.derived_from ≡ ps = ground arith in
              let (e', done, kept, status) =
                refresh_claim-verdict everything filter m id e there
                  (λ p h. known p (in_front p (ground (arith, same)))) in
              let (r, cs, all_done, later) =
                refresh_claims-IsRefreshed (insert id e' m) (id ∷ before) ids
                  (IsOrdered-same (parents_of m) (parents_of (insert id e' m)) (id ∷ before) ids
                    (λ k h. ground (arith, lookup-insert id k e' m, text_eq_iff id k)) rest)
                  (λ p h. ground (
                    arith,
                    lookup-insert id p e' m,
                    known p,
                    text_eq_iff id p,
                    text_eq_iff p id,
                  )) in
              (
                r,
                change_of id e.claim.status e'.claim.status ++ cs,
                rw (done, all_done) refl,
                IsRefreshed-cons m r id ids cs e e' there kept status
                    (IsOrdered-once (parents_of m) (id ∷ before) ids id rest
                      (ground (arith, text_eq_refl id)))
                    (λ p h.
                      let front = in_front p (ground (arith, same)) in
                      ground (
                        arith,
                        IsOrdered-once (parents_of m) (id ∷ before) ids p rest,
                        text_eq_iff p id,
                        front,
                      ))
                    later,
              )
        ]

  -- `Refresh` of a store whose claims stand after their parents succeeds. Afterwards a claim is stale
  -- if one of its own anchors no longer holds, doubted if they hold and a parent is not live, and
  -- live otherwise; the parents' statuses are those after the call. If a path of the call names the
  -- file of one of its anchors, or the call has no paths, all of a claim's anchors are looked up
  -- again, those in other files too; otherwise they hold as they did. What is returned are the
  -- transitions, in the order of the claims.
  pub refresh-IsRefreshed :
      (s : Store) (paths : List Text)
      → IsOrdered (parents_of s.entries) [] s.order
      → (r : Dict Entry) × (cs : List Change) × (refresh hash files s paths
          ≡ ok (record s { entries = r }, cs))
        × IsRefreshed (is_empty paths) (filter_of s.root paths) s.entries s.order r cs
  unfolding refresh
  refresh-IsRefreshed s paths ordered =
      let (r, cs, done, facts) =
        refresh_claims-IsRefreshed (is_empty paths) (filter_of s.root paths) s.entries [] s.order
          ordered (λ p h. absurd cc) in
      (r, cs, rw (refresh, done) refl, facts)

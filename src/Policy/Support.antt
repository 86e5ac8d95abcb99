-- ===== src/Policy/Support.antt =====
-- What the policy demands of the events before it lets a task end in success.
use chronos_code.Base.{
  Text, is_empty, any, all, All, Bool, true, false, ◌&&◌, ◌||◌, not, List, [], ◌∷◌, ◌++◌, map, ◌≡◌,
  refl, ◌≢◌, ◌⊎◌, ◌↔◌, inl, inr, arith, ap, ◌∙◌, Bool-cases,
}
use chronos_code.Ledger.Event.{Event, EventType, is_write, is_verification}
use chronos_code.Ledger.Scope.{verification_inputs_overlap}
use chronos_code.Policy.Obligation.{Mode, Status, Obligation, covers, overlap, matches}
use chronos_code.Policy.Assess.{
  PathState, start_path, is_satisfied, reports_cancelled, path_event, path_state, combine,
  has_status, reduce_obligation, reduce, assess,
}

abbrev is_uncertainty : EventType → Bool
is_uncertainty EventType.uncertainty = true
is_uncertainty _ = false

-- A result of the obligation's check for the path.
abbrev pub is_result : Obligation → Text → Event → Bool
is_result o path e = is_verification e.type && covers e.paths path && matches o e

abbrev pub certifies : Obligation → Text → Event → Bool
certifies o path e = is_result o path e && e.passed

-- After the check: a write to the path or to the inputs of the check, another result of the check,
-- or a report that it was cancelled.
abbrev pub disturbs : Obligation → Text → Event → Event → Bool
disturbs o path check e =
    (is_write e.type && (overlap (path ∷ []) e.paths || verification_inputs_overlap check e))
    || is_result o path e
    || (is_uncertainty e.type && reports_cancelled o path e)

-- A check of the path that passed, with nothing after it that disturbs it.
abbrev pub Certified : Obligation → List Event → Text → Type 0
Certified o events path =
    (before : List Event) × (check : Event) × (after : List Event) × (events
      ≡ before ++ check ∷ after)
    × (certifies o path check ≡ true)
    × (any (disturbs o path check) after ≡ false)

module _ (o : Obligation) (path : Text) where
  path_event-certifies :
      (p : PathState) (e : Event)
      → certifies o path e ≡ true
      → path_event e.type o path p e ≡ record { status = Status.satisfied; evidence = e }
  unfolding path_event
  path_event-certifies p e h = ground arith

  -- A path is satisfied after an event exactly if the event certifies it, or if it was satisfied
  -- and the event does not disturb its evidence.
  path_event-cases :
      (p : PathState) (e : Event)
      → is_satisfied (path_event e.type o path p e).status ≡ true
      → (certifies o path e ≡ true)
        ⊎ ((path_event e.type o path p e ≡ p)
            × (is_satisfied p.status ≡ true)
            × (disturbs o path p.evidence e ≡ false))
  unfolding path_event
  path_event-cases p e h = ground arith

  path_event-keeps :
      (p : PathState) (e : Event)
      → is_satisfied p.status ≡ true
      → disturbs o path p.evidence e ≡ false
      → path_event e.type o path p e ≡ p
  unfolding path_event
  path_event-keeps p e h k = ground arith

  path_state-keeps :
      (p : PathState) (es : List Event)
      → is_satisfied p.status ≡ true
      → any (disturbs o path p.evidence) es ≡ false
      → path_state o path p es ≡ p
  unfolding path_state
  path_state-keeps p [] h k = refl
  path_state-keeps p (e ∷ es) h k =
      rw (path_event-keeps p e h (ground arith)) (path_state-keeps p es h (ground arith))

  path_state-append :
      (p : PathState) (xs ys : List Event)
      → path_state o path p (xs ++ ys) ≡ path_state o path (path_state o path p xs) ys
  unfolding path_state
  path_state-append p [] ys = refl
  path_state-append p (x ∷ xs) ys = path_state-append (path_event x.type o path p x) xs ys

  path_state-cases :
      (p : PathState) (es : List Event)
      → is_satisfied (path_state o path p es).status ≡ true
      → ((is_satisfied p.status ≡ true) × (any (disturbs o path p.evidence) es ≡ false))
        ⊎ Certified o es path
  unfolding path_state
  path_state-cases p [] h = inl (h, refl)
  path_state-cases p (e ∷ es) h = elim (path_state-cases (path_event e.type o path p e) es h) [
    | inl (now, kept) ↦ elim (path_event-cases p e now) [
      | inl c ↦ inr ([], e, es, refl, c, ground (arith, path_event-certifies p e c))
      | inr (kept_state, before, quiet) ↦ inl (before, ground arith)
    ]
    | inr (before, check, after, split, c, quiet) ↦
        inr (e ∷ before, check, after, ap (◌∷◌ e) split, c, quiet)
  ]

  path_state-certified :
      (p : PathState) (check : Event) (after : List Event)
      → certifies o path check ≡ true
      → any (disturbs o path check) after ≡ false
      → path_state o path p (check ∷ after) ≡ record { status = Status.satisfied; evidence = check }
  unfolding path_state
  path_state-certified p check after c quiet =
      rw (path_event-certifies p check c)
        (path_state-keeps (record { status = Status.satisfied; evidence = check }) after refl quiet)

  -- A path ends satisfied exactly if some check of it passed and nothing after disturbs that check.
  path_state-satisfied :
      (es : List Event)
      → (is_satisfied (path_state o path start_path es).status ≡ true) ↔ Certified o es path
  unfolding start_path
  path_state-satisfied es = (needs, suffices)
    where
      needs : is_satisfied (path_state o path start_path es).status ≡ true → Certified o es path
      needs h = elim (path_state-cases start_path es h) [ inl (pending, _) ↦ cc | inr c ↦ c ]

      suffices : Certified o es path → is_satisfied (path_state o path start_path es).status ≡ true
      suffices (before, check, after, split, c, quiet) =
          ap (λ (q : PathState). is_satisfied q.status)
            (ap (path_state o path start_path) split
              ∙ path_state-append start_path before (check ∷ after)
              ∙ path_state-certified (path_state o path start_path before) check after c quiet)

all_satisfied :
    (statuses : List Status)
    → all is_satisfied statuses ≡ (
        not (has_status Status.failed statuses)
        && not (has_status Status.cancelled statuses)
        && not (has_status Status.stale statuses)
        && not (has_status Status.pending statuses))
all_satisfied [] = refl
all_satisfied (s ∷ statuses) = ground (arith, all_satisfied statuses)

combine-satisfied :
    (statuses : List Status)
    → is_satisfied (combine statuses) ≡ (not (is_empty statuses) && all is_satisfied statuses)
unfolding combine
combine-satisfied statuses = ground (arith, all_satisfied statuses)

-- The obligation has a path, and each of its paths is certified.
abbrev pub Supported : List Event → Obligation → Type 0
Supported events o = (is_empty o.paths ≡ false) × All (Certified o events) o.paths

module _ (o : Obligation) (events : List Event) where
  satisfied_paths : List Text → List Status
  satisfied_paths = map (λ path. (path_state o path start_path events).status)

  is_empty-satisfied_paths : (paths : List Text) → is_empty (satisfied_paths paths) ≡ is_empty paths
  unfolding satisfied_paths
  is_empty-satisfied_paths [] = refl
  is_empty-satisfied_paths (path ∷ paths) = refl

  all-Certified :
      (paths : List Text)
      → (all is_satisfied (satisfied_paths paths) ≡ true) ↔ All (Certified o events) paths
  unfolding satisfied_paths
  all-Certified [] = (λ h. tt, λ h. refl)
  all-Certified (path ∷ paths) =
      let here = path_state-satisfied o path events in
      let there = all-Certified paths in
      (
        λ h. (here.0 (ground arith), there.0 (ground arith)),
        λ h. ground (arith, here.1 h.0, there.1 h.1),
      )

  reduce_obligation-satisfied :
      (is_satisfied (reduce_obligation events o).status ≡ true) ↔ Supported events o
  unfolding reduce_obligation satisfied_paths
  reduce_obligation-satisfied =
      let statuses = combine-satisfied (satisfied_paths o.paths) in
      let paths = all-Certified o.paths in
      (
        λ h. (
          ground (arith, statuses, is_empty-satisfied_paths o.paths),
          paths.0 (ground (arith, statuses)),
        ),
        λ h. ground (arith, statuses, is_empty-satisfied_paths o.paths, paths.1 h.1),
      )

all-Supported :
    (os : List Obligation) (events : List Event)
    → (all (λ o. is_satisfied o.status) (reduce os events) ≡ true) ↔ All (Supported events) os
unfolding reduce
all-Supported [] events = (λ h. tt, λ h. refl)
all-Supported (o ∷ os) events =
    let here = reduce_obligation-satisfied o events in
    let there = all-Supported os events in
    (
      λ h. (here.0 (ground arith), there.0 (ground arith)),
      λ h. ground (arith, here.1 h.0, there.1 h.1),
    )

-- In `enforce` mode, and in every other mode but `report`, a proposed success is allowed exactly if
-- each obligation has a path and each of its paths is certified: some event of the history is a
-- result of the obligation's check that covers the path and passed, and after it there is no write
-- to the path or to the inputs of the check, no other result of the check, and no report of its
-- cancellation.
pub assess-enforces :
    (mode : Mode) (os : List Obligation) (events : List Event)
    → mode ≢ Mode.report
    → ((assess mode true os events).allowed ≡ true) ↔ All (Supported events) os
unfolding assess
assess-enforces mode os events h =
    let sound = all-Supported os events in
    (λ k. sound.0 (ground arith), λ k. ground (arith, sound.1 k))

-- A success is never blocked in `report` mode, nor is an outcome that is not a success in any mode.
-- The disagreement is told in every mode: a success is proposed and some obligation is not supported.
pub assess-reports :
    (mode : Mode) (proposed : Bool) (os : List Obligation) (events : List Event)
    → let d = assess mode proposed os events in
      ((assess Mode.report proposed os events).allowed ≡ true)
      × ((assess mode false os events).allowed ≡ true)
      × ((d.disagreement ≡ true) ↔ ((proposed ≡ true) × ¬ All (Supported events) os))
unfolding assess
assess-reports mode proposed os events =
    let sound = all-Supported os events in
    (
      ground arith,
      ground arith,
      (
        λ k. (ground arith, λ every. ground (arith, sound.1 every)),
        λ k. elim (Bool-cases (all (λ o. is_satisfied o.status) (reduce os events))) [
          | inl every ↦ absurd (k.1 (sound.0 every))
          | inr short ↦ ground arith
        ],
      ),
    )

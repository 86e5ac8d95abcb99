-- ===== src/Queue/Refinement.antt =====
-- The whole store against its events, after any steps of the queue:
-- internal/execution/delivery_queue.go, and Load and ReplayDelivery of
-- internal/execution/delivery_store.go.
use mathlib.Core.Path.{subst}
use chronos_code.Base.{
  Text, false, is_empty, All-append, ok, ok-injective, refl, ℕ, suc, ◌+◌, ◌*◌, ◌^◌, ◌<◌, [], ◌∷◌,
  some, All, All-map, Bool-cases, ◌≡◌, inl, inr, arith,
}
use chronos_code.Delivery.Domain.{Delivery}
use chronos_code.Queue.Rows.{Case, Store, DeliveryEventType}
use chronos_code.Queue.Cases.{DeliveryRef, ref_of, ref_eq, find_case, put_case}
use chronos_code.Queue.Journal.{Formats, append_delivery_event, find_event, max_sequence, new_event}
use chronos_code.Queue.Replay.{Decoders, replay_delivery, replay_from, apply_event}
use chronos_code.Queue.Admit.{Admission, admitted_delivery, admit_case}
use chronos_code.Queue.Admitted.{Added}
use chronos_code.Queue.Evolution.{Changed}
use chronos_code.Queue.Steps.{Step, Steps, start, later, Step-cases}
use chronos_code.Queue.Service.{validate_delivery_ref, load}
use chronos_code.Queue.Loading.{load_delivery}
use chronos_code.Queue.Sorted.{IsLoaded, load_delivery-IsLoaded}
use chronos_code.Queue.Projection.{Projected, ReadsBack, ReadsTransitions, Evolves-Projected}

-- Every delivery of the store, at a version that has room for `k` more transitions.
abbrev pub AllProjected : Formats → Decoders → ℕ → Store → Type 0
AllProjected formats decoders k =
    All λ c. (n : ℕ) × (n + k < 2 ^ 63) × Projected formats decoders n c

-- How many steps there are.
abbrev pub count : {formats : Formats} {s t : Store} → Steps formats s t → ℕ
count start = 0
count (later steps step) = suc (count steps)

find_case-All {κ} :
    (P : Case → Type κ) (ref : DeliveryRef) (s : Store) (c : Case)
    → All P s
    → find_case ref s ≡ some c
    → P c
unfolding find_case
find_case-All P ref [] c h k = absurd cc
find_case-All P ref (b ∷ bs) c h k = elim (Bool-cases (ref_eq (ref_of b.delivery) ref)) [
  | inl same ↦ let eq : b ≡ c = ground arith in subst P eq h.0
  | inr differs ↦ find_case-All P ref bs c h.1 (ground arith)
]

put_case-All {κ} :
    (P : Case → Type κ) (ref : DeliveryRef) (c : Case) (s : Store)
    → All P s
    → P c
    → All P (put_case ref c s)
unfolding put_case
put_case-All P ref c [] h k = tt
put_case-All P ref c (b ∷ bs) h k = elim (Bool-cases (ref_eq (ref_of b.delivery) ref)) [
  | inl same ↦ rw same (k, h.1)
  | inr differs ↦ rw differs (h.0, put_case-All P ref c bs h.1 k)
]

module _ (formats : Formats) (decoders : Decoders) (round : ReadsTransitions formats decoders) where
  -- The event of an admission, replayed.
  admit_case-Projected :
      (a : Admission) (fingerprint : Text) (c : Case)
      → is_empty a.delivery_id ≡ false
      → admit_case formats a fingerprint ≡ ok c
      → Projected formats decoders 1 c
  unfolding admit_case append_delivery_event find_event max_sequence replay_delivery replay_from
      apply_event
  admit_case-Projected a fingerprint c named h =
      let d = admitted_delivery a in
      let e = new_event [] DeliveryEventType.admitted (formats.encode_admitted d) a.event [] in
      subst (Projected formats decoders 1) (ok-injective h) (record {
        versioned = refl;
        replayed = λ readable. rw (replay_delivery, readable, named) refl;
        below = (λ p m typed. absurd cc, tt);
      })

  Changed-AllProjected :
      (k : ℕ) (s t : Store)
      → AllProjected formats decoders (k + 2) s
      → Changed formats s t
      → AllProjected formats decoders k t
  Changed-AllProjected k s t all changed =
      let (ref, b, c, found, written, e) = changed in
      let (n, room, inv) = find_case-All _ ref s b all found in
      let (m, le, next) = Evolves-Projected formats decoders round 2 n b c inv (omega arith) e in
      rw written (
        put_case-All _ ref c s (All-map s (λ c' h. (h.0, omega (arith, h.1), h.2)) all)
          (m, omega arith, next))

  Added-AllProjected :
      (k : ℕ) (s t : Store)
      → k + 3 < 2 ^ 63
      → AllProjected formats decoders (k + 2) s
      → Added formats s t
      → AllProjected formats decoders k t
  Added-AllProjected k s t room all added =
      let (a, fingerprint, first, c, made, named, free, written, e) = added in
      let inv = admit_case-Projected a fingerprint first named made in
      let (m, le, next) =
        Evolves-Projected formats decoders round 2 1 first c inv (omega arith) e in
      rw written (
        All-append _ s (c ∷ []) (All-map s (λ c' h. (h.0, omega (arith, h.1), h.2)) all)
          ((m, omega arith, next), tt))

  Step-AllProjected :
      (k : ℕ) (s t : Store)
      → k + 3 < 2 ^ 63
      → AllProjected formats decoders (k + 2) s
      → Step formats s t
      → AllProjected formats decoders k t
  Step-AllProjected k s t room all step = elim (Step-cases formats s t step) [
    | inl same ↦ rw same (All-map s (λ c' h. (h.0, omega (arith, h.1), h.2)) all)
    | inr (inl changed) ↦ Changed-AllProjected k s t all changed
    | inr (inr added) ↦ Added-AllProjected k s t room all added
  ]

  -- The projections and the events stay together, from a store whose versions have room.
  Steps-AllProjected :
      (k : ℕ) (s t : Store) (steps : Steps formats s t)
      → k + 2 * count steps + 3 < 2 ^ 63
      → AllProjected formats decoders (k + 2 * count steps) s
      → AllProjected formats decoders k t
  Steps-AllProjected k s t start room all =
      subst (λ j. AllProjected formats decoders j s) (omega arith) all
  Steps-AllProjected k s t (later {t = mid} steps step) room all =
      Step-AllProjected k mid t (omega arith)
        (Steps-AllProjected (k + 2) s mid steps (omega arith)
          (subst (λ j. AllProjected formats decoders j s) (omega arith) all))
        step

  -- In every store that steps of the queue reach from the empty one, admissions and the events of a
  -- client among them, the events of a delivery can be replayed, and Load under a valid reference
  -- gives the replayed delivery with the same goals, requirements and decisions, sorted by their keys
  -- (goals by revision, requirements by goal revision and ID, decisions by the text of the time they
  -- were requested and ID): when the payload of its admission and those of allowed transitions are decoded as
  -- they were encoded, and there are fewer steps than the versions have room for, two a step.
  pub Steps-load :
      (t : Store) (steps : Steps formats [] t) (ref : DeliveryRef) (c : Case)
      → 2 * count steps + 3 < 2 ^ 63
      → find_case ref t ≡ some c
      → validate_delivery_ref ref ≡ ok tt
      → ReadsBack formats decoders c.delivery
      → (d : Delivery) × (d' : Delivery) × (replay_delivery decoders c.events ≡ ok d)
        × (load formats ref t ≡ ok d')
        × IsLoaded formats.timestamp d d'
  unfolding load
  Steps-load t steps ref c room there valid readable =
      let all = Steps-AllProjected 0 [] t steps (omega arith) tt in
      let (n, fits, projected) = find_case-All _ ref t c all there in
      (
        c.delivery,
        load_delivery formats.timestamp c.delivery,
        projected.replayed readable,
        rw (load, valid, there) refl,
        load_delivery-IsLoaded formats.timestamp c.delivery,
      )

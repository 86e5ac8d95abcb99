-- ===== src/Queue/Admitted.antt =====
-- What an admission does to the store: admit of internal/execution/delivery_store.go.
use mathlib.Core.Path.{subst}
use chronos_code.Base.{
  Text, ℕ, Bool, true, false, List, [], ◌∷◌, ◌++◌, is_empty, none, ok, refuse, ◌>>◌, >>=-eq-ok,
  ok-injective, Option-cases, Bool-cases, if◌then◌else◌, ◌≡◌, refl, sym, ap, ◌∙◌, ◌⊎◌, inl, inr,
  arith,
}
use chronos_code.Delivery.Domain.{Delivery, DeliveryState, state_eq, valid_delivery_transition}
use chronos_code.Queue.Rows.{Case, Store, DeliveryEvent, DeliveryEventType, QueueError}
use chronos_code.Queue.Cases.{DeliveryRef, ref_of, find_case}
use chronos_code.Queue.Journal.{Formats, append_delivery_event, moved, queue_event_identity}
use chronos_code.Queue.Service.{validate_delivery_ref}
use chronos_code.Queue.Admit.{
  or_time, is_incomplete, fingerprint_input, Admission, admission_ref, admitted_delivery,
  admit_identity, initial, normalize_admission, normalize_requirements, find_admission, ensure_row,
  queue_admission, ensure_case, admit_case, queue_case, new_case, admit_normal, admit,
}
use chronos_code.Queue.Epochs.{recorded_events, transition_in_tx-valid}
use chronos_code.Queue.Evolution.{Evolves, quiet, moves, follows, Changed, in_case-Changed}

admitted-queued : valid_delivery_transition DeliveryState.admitted DeliveryState.queued ≡ true
unfolding valid_delivery_transition
admitted-queued = refl

module _ (formats : Formats) where
  ensure_row-Evolves :
      (b c : Case) (d : Delivery) → ensure_row formats b ≡ ok (d, c) → Evolves formats 0 b c
  unfolding ensure_row
  ensure_row-Evolves b c d h = quiet (ground arith) (ground arith) (ground arith)

  queue_admission-Evolves :
      (a : Admission) (b c : Case) → queue_admission formats a b ≡ ok c → Evolves formats 2 b c
  unfolding queue_admission
  queue_admission-Evolves a b c h =
      elim (Bool-cases (state_eq b.delivery.state DeliveryState.admitted)) [
        | inr differs ↦ quiet (ground arith) (ground arith) (ground arith)
        | inl waits ↦
            moves {k = 1} DeliveryState.queued (admit_identity a b.delivery.id) (ground arith)
      ]

  ensure_case-Evolves :
      (a : Admission) (b c : Case) (d : Delivery)
      → ensure_case formats a b ≡ ok (d, c)
      → Evolves formats 2 b c
  unfolding ensure_case
  ensure_case-Evolves a b c d h =
      let (m, p, q) =
        >>=-eq-ok {last = (d, c)} (queue_admission formats a b) (ensure_row formats) h in
      follows (queue_admission-Evolves a b m p) (ensure_row-Evolves m c d q)

  queue_case-Evolves :
      (a : Admission) (fingerprint : Text) (events : List DeliveryEvent) (c : Case)
      → queue_case formats a (initial a fingerprint events) ≡ ok c
      → Evolves formats 2 (initial a fingerprint events) c
  unfolding queue_case queue_event_identity
  queue_case-Evolves a fingerprint events c h =
      let first = initial a fingerprint events in
      let i = admit_identity a a.delivery_id in
      let (after, p, q) =
        >>=-eq-ok {last = c} (recorded_events formats DeliveryState.queued i first) _ h in
      let step = transition_in_tx-valid formats DeliveryState.queued i first admitted-queued in
      follows
        (moves {k = 1}
          {c = record first {
            delivery = moved first.delivery DeliveryState.queued i;
            events = after;
          }}
          DeliveryState.queued i (step ∙ rw p refl))
        (quiet {k = 0} (rw (sym (ok-injective q)) refl) (rw (sym (ok-injective q)) refl)
          (rw (sym (ok-injective q)) (omega arith)))

  -- A delivery that is new: its rows come after the others, and evolved from its admission.
  abbrev pub Added : Store → Store → Type 0
  Added s t =
      (a : Admission) × (fingerprint : Text) × (first : Case) × (c : Case) × (admit_case formats a
          fingerprint
        ≡ ok first)
      × (is_empty a.delivery_id ≡ false)
      × (find_case (admission_ref a) s ≡ none)
      × (t ≡ s ++ c ∷ [])
      × Evolves formats 2 first c

  admit_case-initial :
      (a : Admission) (fingerprint : Text) (c : Case)
      → admit_case formats a fingerprint ≡ ok c
      → (events : List DeliveryEvent) × (c ≡ initial a fingerprint events)
  unfolding admit_case
  admit_case-initial a fingerprint c h =
      let (events, p, q) =
        >>=-eq-ok {last = c}
          (append_delivery_event formats [] DeliveryEventType.admitted
            (formats.encode_admitted (admitted_delivery a)) a.event [])
          _ h in
      (events, sym (ok-injective q))

  new_case-Evolves :
      (a : Admission) (fingerprint : Text) (runnable : Bool) (c : Case)
      → new_case formats a fingerprint runnable ≡ ok c
      → (first : Case) × (admit_case formats a fingerprint ≡ ok first) × Evolves formats 2 first c
  unfolding new_case
  new_case-Evolves a fingerprint runnable c h =
      let (first, p, q) =
        >>=-eq-ok {last = c} (admit_case formats a fingerprint)
          (λ b. if runnable then queue_case formats a b else ok b) h in
      let (events, e) = admit_case-initial a fingerprint first p in
      (
        first,
        p,
        elim (Bool-cases runnable) [
          | inr plain ↦ quiet (ground arith) (ground arith) (ground arith)
          | inl queued ↦
              subst (λ b. Evolves formats 2 b c) (sym e)
                (queue_case-Evolves a fingerprint events c
                  (subst (λ b. queue_case formats a b ≡ ok c) e (ground arith)))
        ],
      )

  admit_normal-cases :
      (a : Admission) (runnable : Bool) (s t : Store) (d : Delivery)
      → is_empty a.delivery_id ≡ false
      → admit_normal formats a runnable s ≡ ok (d, t)
      → (t ≡ s) ⊎ (Changed formats s t ⊎ Added s t)
  unfolding admit_normal
  admit_normal-cases a runnable s t d named h = elim (Option-cases (find_admission a s)) [
    | inl unknown ↦ elim (Option-cases (find_case (admission_ref a) s)) [
      | inr taken ↦ absurd (ground arith)
      | inl free ↦
          let fingerprint = formats.digest_admission (fingerprint_input a) in
          let (c, p, q) =
            >>=-eq-ok {B = Delivery × Store} {last = (d, t)}
              (new_case formats a fingerprint runnable) (λ c. ok (c.delivery, s ++ c ∷ []))
              (ground arith) in
          let (first, m, e) = new_case-Evolves a fingerprint runnable c p in
          inr (
            inr (a, fingerprint, first, c, m, named, free, ap (λ r. r.1) (sym (ok-injective q)), e))
    ]
    | inr (c, known) ↦ elim (Bool-cases runnable) [
      | inr plain ↦ inl (ground arith)
      | inl wanted ↦ inr (
          inl (
            in_case-Changed formats (ref_of c.delivery) QueueError.delivery_not_found
              (ensure_case formats a) s d t (λ b c' r. ensure_case-Evolves a b c' r)
              (ground arith)))
    ]
  ]

  validate_delivery_ref-named :
      (ref : DeliveryRef) → validate_delivery_ref ref ≡ ok tt → is_empty ref.id ≡ false
  unfolding validate_delivery_ref
  validate_delivery_ref-named ref h = ground arith

  normalize_admission-named :
      (now : ℕ) (a n : Admission)
      → normalize_admission now a ≡ ok n
      → is_empty n.delivery_id ≡ false
  unfolding normalize_admission
  normalize_admission-named now a n h =
      let at = or_time a.event.occurred_at now in
      let (u, first, rest) =
        >>=-eq-ok {last = n}
          (validate_delivery_ref (admission_ref a)
            >> refuse (is_incomplete a) QueueError.invalid_delivery)
          _ h in
      let (v, valid, more) =
        >>=-eq-ok {last = u} (validate_delivery_ref (admission_ref a))
          (λ x. refuse (is_incomplete a) QueueError.invalid_delivery) first in
      let (rs, good, made) =
        >>=-eq-ok {last = n} (normalize_requirements [] at a.requirements) _ rest in
      rw (sym (ok-injective made)) (validate_delivery_ref-named (admission_ref a) valid)

  -- Every admission leaves the store, or changes the rows of one delivery, or adds one.
  pub admit-cases :
      (a : Admission) (runnable : Bool) (now : ℕ) (s t : Store) (d : Delivery)
      → admit formats a runnable now s ≡ ok (d, t)
      → (t ≡ s) ⊎ (Changed formats s t ⊎ Added s t)
  unfolding admit
  admit-cases a runnable now s t d h =
      let (n, p, q) =
        >>=-eq-ok {last = (d, t)} (normalize_admission now a)
          (λ n. admit_normal formats n runnable s) h in
      admit_normal-cases n runnable s t d (normalize_admission-named now a n p) q

-- ===== src/Queue/Steps.antt =====
-- The queue over time: a transaction that succeeds is a step of the store, one that fails leaves
-- it. Transactions of several workers and callers come one after the other.
use chronos_code.Base.{
  Bool, ◌⊎◌, false, Text, text_eq, codes, ℕ, Result, ok, refuse, ◌>>◌, ◌≡◌, arith, ◌||◌, is_empty,
  Option-cases, inl, inr,
}
use chronos_code.Base.Int.{ℤ, pos, pos_part, leb_ℤ, ltb_ℤ}
use chronos_code.Delivery.Domain.{Delivery, DeliveryState}
use chronos_code.Queue.Rows.{
  Case, Store, Lease, Outcome, QueueError, DeliveryEvent, DeliveryEventType, EventIdentity,
}
use chronos_code.Queue.Cases.{DeliveryRef, ref_of}
use chronos_code.Queue.Journal.{Formats}
use chronos_code.Queue.Selection.{first_due}
use chronos_code.Queue.Worker.{
  claim, claim_case, verify_lease, in_lease, heartbeat, heartbeat_case, attempt_case,
  update_attempt, checkpoint, publish_result,
}
use chronos_code.Queue.Outcome.{
  transition_lease, transition_case, release, release_case, finalize, finalize_case,
}
use chronos_code.Queue.Service.{
  validate_delivery_ref, queue_admitted, promote_case, signal_waiting, signal_case, cancel,
  cancel_case,
}
use chronos_code.Queue.Admit.{Admission, admit, or_time}
use chronos_code.Queue.Append.{is_own_type, is_nameless, append_case, append_event}
use chronos_code.Queue.Admitted.{Added, admit-cases}
use chronos_code.Queue.Evolution.{
  >>-eq-ok, Evolves, Changed, in_case-Changed, claim_case-Evolves, heartbeat_case-Evolves,
  attempt_case-Evolves, append_case-Evolves,
}
use chronos_code.Queue.Endings.{
  transition_case-Evolves, release_case-Evolves, finalize_case-Evolves, promote_case-Evolves,
  signal_case-Evolves, cancel_case-Evolves,
}

pub data Step (formats : Formats) : Store → Store → Type 0 where
  admitted :
      {s t : Store} (a : Admission) (runnable : Bool) (now : ℕ) (d : Delivery)
      → admit formats a runnable now s ≡ ok (d, t)
      → Step formats s t
  claimed :
      {s t : Store} (owner : Text) (duration : ℤ) (now : ℕ) (l : Lease)
      → claim formats owner duration now s ≡ ok (l, t)
      → Step formats s t
  beat :
      {s t : Store} (lease : Lease) (duration : ℤ) (now : ℕ) (l : Lease)
      → heartbeat formats lease duration now s ≡ ok (l, t)
      → Step formats s t
  checkpointed :
      {s t : Store} (lease : Lease) (value : Text) (now : ℕ)
      → checkpoint formats lease value now s ≡ ok (tt, t)
      → Step formats s t
  published :
      {s t : Store} (lease : Lease) (value : Text) (now : ℕ)
      → publish_result formats lease value now s ≡ ok (tt, t)
      → Step formats s t
  transitioned :
      {s t : Store} (lease : Lease) (next : DeliveryState) (now later : ℕ) (d : Delivery)
      → transition_lease formats lease next now later s ≡ ok (d, t)
      → Step formats s t
  released :
      {s t : Store} (lease : Lease) (now : ℕ)
      → release formats lease now s ≡ ok (tt, t)
      → Step formats s t
  finalized :
      {s t : Store} (lease : Lease) (o : Outcome) (now : ℕ) (d : Delivery)
      → finalize formats lease o now s ≡ ok (d, t)
      → Step formats s t
  promoted :
      {s t : Store} (ref : DeliveryRef) (expected : ℤ) (now : ℕ) (d : Delivery)
      → queue_admitted formats ref expected now s ≡ ok (d, t)
      → Step formats s t
  signalled :
      {s t : Store} (ref : DeliveryRef) (signal : Text) (now : ℕ)
      → signal_waiting formats ref signal now s ≡ ok (tt, t)
      → Step formats s t
  cancelled :
      {s t : Store} (ref : DeliveryRef) (now : ℕ)
      → cancel formats ref now s ≡ ok (tt, t)
      → Step formats s t
  recorded :
      {s t : Store} (ref : DeliveryRef) (type : DeliveryEventType) (payload : Text)
      (i : EventIdentity) (now : ℕ) (e : DeliveryEvent)
      → append_event formats ref type payload i now s ≡ ok (e, t)
      → Step formats s t

pub data Steps (formats : Formats) : Store → Store → Type 0 where
  start : {s : Store} → Steps formats s s
  later : {s t u : Store} → Steps formats s t → Step formats t u → Steps formats s u

module _ (formats : Formats) where
  pub in_lease-Changed {ℓ} :
      {A : Type ℓ} (lease : Lease) (now : ℕ) (work : Case → Result QueueError (A × Case))
      (s t : Store) (a : A)
      → ((b c : Case) (r : A) → work b ≡ ok (r, c) → Evolves formats 2 b c)
      → in_lease formats lease now work s ≡ ok (a, t)
      → Changed formats s t
  unfolding in_lease
  in_lease-Changed lease now work s t a f h =
      in_case-Changed formats (ref_of lease.delivery) QueueError.stale_lease
        (λ c. verify_lease formats lease now c >> work c) s a t
        (λ b c r e. f b c r (>>-eq-ok (verify_lease formats lease now b) (work b) e)) h

  -- Every step leaves the store, changes the rows of one delivery, or adds a delivery.
  pub Step-cases :
      (s t : Store) → Step formats s t → (t ≡ s) ⊎ (Changed formats s t ⊎ Added formats s t)
  unfolding claim heartbeat checkpoint publish_result update_attempt transition_lease release
      finalize queue_admitted signal_waiting cancel append_event
  Step-cases s t (admitted a runnable now d h) = admit-cases formats a runnable now s t d h
  Step-cases s t (claimed owner duration now l h) = inr (
      inl (elim (Option-cases (first_due (formats.timestamp now) s)) [
        | inl idle ↦ absurd (ground arith)
        | inr (c, e) ↦
            in_case-Changed formats (ref_of c.delivery) QueueError.no_runnable_delivery
              (claim_case formats owner (pos_part duration) now) s l t
              (λ b c' r. claim_case-Evolves formats owner (pos_part duration) now b c' r)
              (ground arith)
      ]))
  Step-cases s t (beat lease duration now l h) = inr (
      inl (
        in_lease-Changed lease now (heartbeat_case formats lease (pos_part duration) now) s t l
          (λ b c r. heartbeat_case-Evolves formats lease r (pos_part duration) now b c)
          (>>-eq-ok (refuse (leb_ℤ duration (pos 0)) QueueError.invalid_delivery) _ h)))
  Step-cases s t (checkpointed lease value now h) = inr (
      inl (
        in_lease-Changed lease now
          (attempt_case formats (λ a. record a { checkpoint = value }) lease) s t tt
          (λ b c r. attempt_case-Evolves formats _ lease b c r) h))
  Step-cases s t (published lease value now h) = inr (
      inl (
        in_lease-Changed lease now (attempt_case formats (λ a. record a { result = value }) lease) s
          t tt (λ b c r. attempt_case-Evolves formats _ lease b c r) h))
  Step-cases s t (transitioned lease next now after d h) = inr (
      inl (
        in_lease-Changed lease now (transition_case formats lease next after) s t d
          (λ b c r. transition_case-Evolves formats lease next after b c r) h))
  Step-cases s t (released lease now h) = inr (
      inl (
        in_lease-Changed lease now (release_case formats lease now) s t tt
          (λ b c r. release_case-Evolves formats lease now b c r) h))
  Step-cases s t (finalized lease o now d h) = inr (
      inl (
        in_lease-Changed lease now (finalize_case formats lease o now) s t d
          (λ b c r. finalize_case-Evolves formats lease o now b c r)
          (>>-eq-ok (refuse (ltb_ℤ o.active_nanoseconds (pos 0)) QueueError.invalid_delivery) _ h)))
  Step-cases s t (promoted ref expected now d h) = inr (
      inl (
        in_case-Changed formats ref QueueError.delivery_not_found
          (promote_case formats ref expected now) s d t
          (λ b c r. promote_case-Evolves formats ref expected now b c r)
          (>>-eq-ok
            (validate_delivery_ref ref
              >> refuse (ltb_ℤ expected (pos 1)) QueueError.invalid_delivery)
            _ h)))
  Step-cases s t (signalled ref sig now h) = inr (
      inl (
        in_case-Changed formats ref QueueError.stale_lease (signal_case formats ref sig now) s tt t
          (λ b c r. signal_case-Evolves formats ref sig now b c r)
          (>>-eq-ok
            (validate_delivery_ref ref
              >> refuse (is_empty sig || text_eq sig (codes "retry")) QueueError.invalid_delivery)
            _ h)))
  Step-cases s t (cancelled ref now h) = inr (
      inl (
        in_case-Changed formats ref QueueError.delivery_not_found (cancel_case formats ref now) s tt
          t (λ b c r. cancel_case-Evolves formats ref now b c r)
          (>>-eq-ok (validate_delivery_ref ref) _ h)))
  Step-cases s t (recorded ref type payload i now e h) =
      let known =
        >>-eq-ok (refuse (is_nameless type i) QueueError.invalid_delivery) _
          (>>-eq-ok (validate_delivery_ref ref) _ h) in
      let own : is_own_type type ≡ false = ground arith in
      inr (
        inl (
          in_case-Changed formats ref QueueError.delivery_not_found
            (append_case formats type payload
              (record i { occurred_at = or_time i.occurred_at now }))
            s e t (λ b c r. append_case-Evolves formats type payload _ b c r own)
            (>>-eq-ok (refuse (is_own_type type) QueueError.invalid_delivery) _ known)))

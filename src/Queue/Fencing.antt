-- ===== src/Queue/Fencing.antt =====
-- Leases fence each other: verifyLease of internal/execution/delivery_queue.go over time.
use mathlib.Core.Path.{subst}
use chronos_code.Base.{
  Text, ℕ, suc, ◌≤◌, ◌++◌, ◌∷◌, [], ◌<◌, false, some, Result, ok, err, >>=-eq-ok, Option-cases, ◌≡◌,
  refl, sym, ap, ◌∙◌, inl, inr, arith, codes, ◌||◌,
}
use chronos_code.Base.Int.{ℤ, pos, pos_part, leb_ℤ, ltb_ℤ}
use chronos_code.Delivery.Domain.{DeliveryState, state_eq}
use chronos_code.Queue.Rows.{Case, Store, Lease, Outcome, QueueError}
use chronos_code.Queue.Cases.{
  DeliveryRef, ref_of, find_case, in_case, find_case-ref, find_case-append,
}
use chronos_code.Queue.Journal.{Formats, transition_in_tx, queue_event_identity}
use chronos_code.Queue.Worker.{
  claim, is_live, in_lease, heartbeat, heartbeat_case, attempt_case, update_attempt, checkpoint,
  publish_result,
}
use chronos_code.Queue.Outcome.{
  transition_case, release_case, finalize_case, transition_lease, release, finalize,
}
use chronos_code.Queue.Service.{validate_delivery_ref, cancel, cancel_case, cancel_rows}
use chronos_code.Queue.Epochs.{
  epoch_of, epoch_at, epoch_at-found, put_case-epoch_self, in_case-Wrote, Grows, put_case-epoch_at,
  transition_in_tx-KeepsQueue,
}
use chronos_code.Queue.Evolution.{Changed, >>-eq-ok, Evolves, quiet, records, moves, follows}
use chronos_code.Queue.Endings.{cancel_case-Evolves}
use chronos_code.Queue.Steps.{Step, Steps, start, later, Step-cases}
use chronos_code.Queue.Claimed.{claim-TookRow}

-- The answer of every operation under the lease is ErrStaleLease, at any time, for any argument
-- that is not refused before: the store stays as it is.
pub record Fenced (formats : Formats) (o : Lease) (t : Store) : Type 0 where
  pub no_heartbeat :
      (duration : ℤ) (now : ℕ)
      → leb_ℤ duration (pos 0) ≡ false
      → heartbeat formats o duration now t ≡ err QueueError.stale_lease
  pub no_checkpoint :
      (value : Text) (now : ℕ) → checkpoint formats o value now t ≡ err QueueError.stale_lease
  pub no_result :
      (value : Text) (now : ℕ) → publish_result formats o value now t ≡ err QueueError.stale_lease
  pub no_transition :
      (next : DeliveryState) (now after : ℕ)
      → transition_lease formats o next now after t ≡ err QueueError.stale_lease
  pub no_release : (now : ℕ) → release formats o now t ≡ err QueueError.stale_lease
  pub no_outcome :
      (outcome : Outcome) (now : ℕ)
      → ltb_ℤ outcome.active_nanoseconds (pos 0) ≡ false
      → finalize formats o outcome now t ≡ err QueueError.stale_lease

module _ (formats : Formats) where
  Evolves-Grows : (k : ℕ) (b c : Case) → Evolves formats k b c → Grows b c
  Evolves-Grows k b c (quiet d e l) = record { same = rw d refl; larger = l }
  Evolves-Grows k b c (records t payload i own h d l) = record { same = rw d refl; larger = l }
  Evolves-Grows k b c (moves next i h) =
      let kept = transition_in_tx-KeepsQueue formats next i b c h in
      record { same = kept.same; larger = rw kept.kept (omega arith) }
  Evolves-Grows k b c (follows {m} {n} {b = mid} p q) =
      let g = Evolves-Grows m b mid p in
      let h = Evolves-Grows n mid c q in
      record { same = h.same ∙ g.same; larger = omega (arith, g.larger, h.larger) }

  append-epoch_at :
      (ref : DeliveryRef) (c : Case) (s : Store) → epoch_at ref s ≤ epoch_at ref (s ++ c ∷ [])
  unfolding epoch_at
  append-epoch_at ref c s = elim (Option-cases (find_case ref s)) [
    | inl free ↦ rw (epoch_at, free) (omega arith)
    | inr (d, there) ↦ omega (
      arith,
      epoch_at-found ref s d there,
      epoch_at-found ref (s ++ c ∷ []) d (find_case-append ref c d s there),
    )
  ]

  Changed-epoch_at :
      (ref : DeliveryRef) (s t : Store) → Changed formats s t → epoch_at ref s ≤ epoch_at ref t
  Changed-epoch_at ref s t changed =
      let (key, b, c, found, written, e) = changed in
      let g = Evolves-Grows 2 b c e in
      rw written
        (put_case-epoch_at key ref b c s found (g.same ∙ find_case-ref key s b found) g.larger)

  -- No step lets the epoch of a delivery shrink.
  Step-epoch_at :
      (ref : DeliveryRef) (s t : Store) → Step formats s t → epoch_at ref s ≤ epoch_at ref t
  Step-epoch_at ref s t step = elim (Step-cases formats s t step) [
    | inl same ↦ rw same (omega arith)
    | inr (inl changed) ↦ Changed-epoch_at ref s t changed
    | inr (inr (a, fingerprint, first, c, m, named, free, written, e)) ↦
        rw written (append-epoch_at ref c s)
  ]

  Steps-epoch_at :
      (ref : DeliveryRef) (s t : Store) → Steps formats s t → epoch_at ref s ≤ epoch_at ref t
  Steps-epoch_at ref s t start = omega arith
  Steps-epoch_at ref s t (later {t = mid} steps step) =
      omega (arith, Steps-epoch_at ref s mid steps, Step-epoch_at ref mid t step)

  -- A claim gives out the next epoch of its delivery.
  claim-epoch_at :
      (owner : Text) (duration : ℤ) (now : ℕ) (s t : Store) (l : Lease)
      → claim formats owner duration now s ≡ ok (l, t)
      → (l.epoch ≡ suc (epoch_at (ref_of l.delivery) s))
        × (epoch_at (ref_of l.delivery) t ≡ l.epoch)
  claim-epoch_at owner duration now s t l h =
      let (due, b, c, row, first, found, written, queued, took) =
        claim-TookRow formats owner duration now s t l h in
      let ref = ref_of due.delivery in
      let key = took.same ∙ find_case-ref ref s b found in
      let before : epoch_at ref s ≡ row.lease_epoch =
        epoch_at-found ref s b found ∙ rw (epoch_of, queued) refl in
      let wrote : epoch_at ref t ≡ epoch_of c =
        rw written (put_case-epoch_self ref b c s found key) in
      let after : epoch_at ref t ≡ suc row.lease_epoch = wrote ∙ rw (epoch_of, took.queued) refl in
      subst (λ r. (l.epoch ≡ suc (epoch_at r s)) × (epoch_at r t ≡ l.epoch))
        (sym (ap ref_of took.returned ∙ key))
        (cc (took.numbered, before), cc (took.numbered, after))

  overtaken-is_live :
      (o : Lease) (now : ℕ) (c : Case) → o.epoch < epoch_of c → is_live formats o now c ≡ false
  unfolding is_live
  overtaken-is_live o now c h = ground arith

  in_lease-fenced {ℓ} :
      {A : Type ℓ} (o : Lease) (now : ℕ) (work : Case → Result QueueError (A × Case)) (t : Store)
      → o.epoch < epoch_at (ref_of o.delivery) t
      → in_lease formats o now work t ≡ err QueueError.stale_lease
  unfolding in_lease in_case
  in_lease-fenced o now work t h = elim (Option-cases (find_case (ref_of o.delivery) t)) [
    | inl gone ↦ rw (in_case, gone) refl
    | inr (c, e) ↦
        rw
          (
            in_case,
            e,
            overtaken-is_live o now c (omega (arith, epoch_at-found (ref_of o.delivery) t c e)),
          )
          refl
  ]

  overtaken-Fenced :
      (o : Lease) (t : Store) → o.epoch < epoch_at (ref_of o.delivery) t → Fenced formats o t
  unfolding heartbeat checkpoint publish_result update_attempt transition_lease release finalize
  overtaken-Fenced o t h = record {
    no_heartbeat = λ duration now k.
        rw k (in_lease-fenced o now (heartbeat_case formats o (pos_part duration) now) t h);
    no_checkpoint = λ value now.
        in_lease-fenced o now (attempt_case formats (λ a. record a { checkpoint = value }) o) t h;
    no_result = λ value now.
        in_lease-fenced o now (attempt_case formats (λ a. record a { result = value }) o) t h;
    no_transition =
        λ next now after. in_lease-fenced o now (transition_case formats o next after) t h;
    no_release = λ now. in_lease-fenced o now (release_case formats o now) t h;
    no_outcome =
        λ outcome now k. rw k (in_lease-fenced o now (finalize_case formats o outcome now) t h);
  }

  -- When a delivery that one worker claimed is claimed again, by whomever, no operation under the
  -- first lease succeeds any more, after any further steps of the queue and at any time.
  pub claim-Fenced :
      (s a b c t : Store) (owner owner' : Text) (duration duration' : ℤ) (now now' : ℕ)
      (first second : Lease)
      → claim formats owner duration now s ≡ ok (first, a)
      → Steps formats a b
      → claim formats owner' duration' now' b ≡ ok (second, c)
      → ref_of first.delivery ≡ ref_of second.delivery
      → Steps formats c t
      → Fenced formats first t
  claim-Fenced s a b c t owner owner' duration duration' now now' first second h steps k same more =
      let ref = ref_of first.delivery in
      let (p, q) = claim-epoch_at owner duration now s a first h in
      let (r, w) = claim-epoch_at owner' duration' now' b c second k in
      let r' : second.epoch ≡ suc (epoch_at ref b) = rw same r in
      let w' : epoch_at ref c ≡ second.epoch = rw same w in
      overtaken-Fenced first t
        (omega (arith, q, r', w', Steps-epoch_at ref a b steps, Steps-epoch_at ref c t more))

  cancel_rows-epoch :
      (at : Text) (b c : Case)
      → cancel_rows formats at b ≡ ok (tt, c)
      → epoch_of c ≡ suc (epoch_of b)
  unfolding cancel_rows
  cancel_rows-epoch at b c h = ground arith

  cancel_case-epoch :
      (ref : DeliveryRef) (now : ℕ) (b c : Case)
      → cancel_case formats ref now b ≡ ok (tt, c)
      → (state_eq b.delivery.state DeliveryState.cancel_requested
          || state_eq b.delivery.state DeliveryState.cancelled)
        ≡ false
      → epoch_of c ≡ suc (epoch_of b)
  unfolding cancel_case
  cancel_case-epoch ref now b c h wanted =
      let i = queue_event_identity ref.id (codes "cancel") b.delivery.version now in
      let (m, p, q) =
        >>=-eq-ok {last = (tt, c)} (transition_in_tx formats DeliveryState.cancel_requested i b)
          (cancel_rows formats (formats.timestamp now)) (ground arith) in
      let k = transition_in_tx-KeepsQueue formats DeliveryState.cancel_requested i b m p in
      let same : epoch_of m ≡ epoch_of b = rw (epoch_of, k.kept) refl in
      omega (arith, same, cancel_rows-epoch (formats.timestamp now) m c q)

  -- When a claimed delivery is cancelled, and was neither cancelled nor asked to be before, no
  -- operation under the lease succeeds any more, after any further steps and at any time.
  pub cancel-Fenced :
      (s a b c t : Store) (owner : Text) (duration : ℤ) (now now' : ℕ) (l : Lease) (rows : Case)
      → claim formats owner duration now s ≡ ok (l, a)
      → Steps formats a b
      → find_case (ref_of l.delivery) b ≡ some rows
      → (state_eq rows.delivery.state DeliveryState.cancel_requested
          || state_eq rows.delivery.state DeliveryState.cancelled)
        ≡ false
      → cancel formats (ref_of l.delivery) now' b ≡ ok (tt, c)
      → Steps formats c t
      → Fenced formats l t
  unfolding cancel
  cancel-Fenced s a b c t owner duration now now' l rows h steps found wanted k more =
      let ref = ref_of l.delivery in
      let (p, q) = claim-epoch_at owner duration now s a l h in
      let (rows', after, w) =
        in_case-Wrote ref QueueError.delivery_not_found (cancel_case formats ref now') b tt c
          (>>-eq-ok (validate_delivery_ref ref) _ k) in
      let same : rows ≡ rows' = cc (found, w.found) in
      let g =
        Evolves-Grows 2 rows' after
          (cancel_case-Evolves formats ref now' rows' after tt w.worked) in
      let grown = cancel_case-epoch ref now' rows' after w.worked (
        subst
          (λ r.
            (state_eq r.delivery.state DeliveryState.cancel_requested
              || state_eq r.delivery.state DeliveryState.cancelled)
            ≡ false)
          same wanted) in
      let last : epoch_at ref c ≡ epoch_of after = rw w.written (
        put_case-epoch_self ref rows' after b w.found
          (g.same ∙ find_case-ref ref b rows' w.found)) in
      overtaken-Fenced l t (
        omega (
          arith,
          q,
          grown,
          last,
          epoch_at-found ref b rows' w.found,
          Steps-epoch_at ref a b steps,
          Steps-epoch_at ref c t more,
        ))

-- ===== src/Queue/Claimed.antt =====
-- What a claim that succeeds wrote: DeliveryStore.Claim of internal/execution/delivery_queue.go.
use chronos_code.Base.{
  Text, ℕ, suc, ◌+◌, ◌++◌, true, [], ◌∷◌, some, ok, ◌>>=◌, >>=-eq-ok, Option-cases, Bool-cases,
  codes, ◌≡◌, refl, ◌∙◌, inl, inr, arith,
}
use chronos_code.Base.Int.{ℤ, pos, pos_part}
use chronos_code.Delivery.Domain.{DeliveryState, state_eq}
use chronos_code.Queue.Rows.{QueueRow, Case, Store, Lease, QueueError}
use chronos_code.Queue.Cases.{ref_of, find_case, put_case}
use chronos_code.Queue.Loading.{load_delivery}
use chronos_code.Queue.Journal.{Formats, transition_in_tx, queue_event_identity}
use chronos_code.Queue.Selection.{first_due}
use chronos_code.Queue.Worker.{
  claim, claim_case, claim_row, requeue, start_running, record_attempt, taken, leased_row,
  max_attempt, unfinished,
}
use chronos_code.Queue.Epochs.{
  KeepsQueue, transition_in_tx-KeepsQueue, transition_in_tx-moved, in_case-Wrote,
}

module _ (formats : Formats) where
  -- The rows of the delivery after the claim of a row.
  pub record TookRow (owner : Text) (duration now : ℕ) (b c : Case) (row : QueueRow) (l : Lease)
      : Type 0 where
    pub same : ref_of c.delivery ≡ ref_of b.delivery
    pub returned : l.delivery ≡ load_delivery formats.timestamp c.delivery
    pub runs : c.delivery.state ≡ DeliveryState.running
    pub owned : l.owner_id ≡ owner
    pub numbered : l.epoch ≡ suc row.lease_epoch
    pub bounded : l.expires ≡ now + duration
    pub queued :
        c.queue
        ≡ some (leased_row owner (formats.timestamp now) (formats.timestamp (now + duration)) row)
    pub tried :
        c.attempts
        ≡ (taken formats owner now (now + duration) b row).attempts
          ++ unfinished l.attempt owner l.epoch (formats.timestamp now) ∷ []

  requeue-KeepsQueue :
      (epoch now : ℕ) (b c : Case) → requeue formats epoch now b ≡ ok c → KeepsQueue b c
  unfolding requeue
  requeue-KeepsQueue epoch now b c h =
      elim (Bool-cases (state_eq b.delivery.state DeliveryState.waiting_retry)) [
        | inr differs ↦ record { same = ground arith; kept = ground arith; tried = ground arith }
        | inl waits ↦
            transition_in_tx-KeepsQueue formats DeliveryState.queued
              (queue_event_identity b.delivery.id (codes "retry-due") (pos epoch) now) b c
              (ground arith)
      ]

  running-state :
      (state : DeliveryState)
      → state_eq state DeliveryState.running ≡ true
      → state ≡ DeliveryState.running
  running-state state h = ground arith

  start_running-KeepsQueue :
      (epoch now : ℕ) (b c : Case)
      → start_running formats epoch now b ≡ ok c
      → KeepsQueue b c × (c.delivery.state ≡ DeliveryState.running)
  unfolding start_running
  start_running-KeepsQueue epoch now b c h =
      elim (Bool-cases (state_eq b.delivery.state DeliveryState.running)) [
        | inl runs ↦ (
          record { same = ground arith; kept = ground arith; tried = ground arith },
          ground (arith, running-state b.delivery.state runs),
        )
        | inr differs ↦
            let i = queue_event_identity b.delivery.id (codes "claim") (pos epoch) now in
            let p : transition_in_tx formats DeliveryState.running i b ≡ ok c = ground arith in
            let (events, m, v, e) = transition_in_tx-moved formats DeliveryState.running i b c p in
            (transition_in_tx-KeepsQueue formats DeliveryState.running i b c p, rw e refl)
      ]

  -- The lease and the attempt that a claim returns and inserts.
  record_attempt-ok :
      (owner : Text) (epoch now expires : ℕ) (b c : Case) (l : Lease)
      → record_attempt formats owner epoch now expires b ≡ ok (l, c)
      → (c ≡ record b {
        attempts = b.attempts ++ unfinished l.attempt owner epoch (formats.timestamp now) ∷ [];
      })
        × (l ≡ record {
          delivery = load_delivery formats.timestamp b.delivery;
          owner_id = owner;
          epoch = epoch;
          attempt = suc (max_attempt b.attempts);
          acquired = now;
          expires = expires;
          heartbeat = now;
        })
  unfolding record_attempt
  record_attempt-ok owner epoch now expires b c l h = (ground arith, ground arith)

  claim_row-TookRow :
      (owner : Text) (duration now : ℕ) (b c : Case) (row : QueueRow) (l : Lease)
      → claim_row formats owner duration now b row ≡ ok (l, c)
      → TookRow owner duration now b c row l
  unfolding claim_row
  claim_row-TookRow owner duration now b c row l h =
      let epoch = suc row.lease_epoch in
      let expires = now + duration in
      let first = taken formats owner now expires b row in
      let (ran, p, q) =
        >>=-eq-ok (requeue formats epoch now first >>= start_running formats epoch now)
          (record_attempt formats owner epoch now expires) h in
      let (waited, r, w) =
        >>=-eq-ok (requeue formats epoch now first) (start_running formats epoch now) p in
      let k = requeue-KeepsQueue epoch now first waited r in
      let (m, runs) = start_running-KeepsQueue epoch now waited ran w in
      let (wrote, made) = record_attempt-ok owner epoch now expires ran c l q in
      record {
        same = rw wrote (m.same ∙ k.same);
        returned = rw (wrote, made) refl;
        runs = rw wrote runs;
        owned = rw made refl;
        numbered = rw made refl;
        bounded = rw made refl;
        queued = rw wrote (m.kept ∙ k.kept);
        tried = cc (wrote, made, m.tried, k.tried);
      }

  claim_case-TookRow :
      (owner : Text) (duration now : ℕ) (b c : Case) (l : Lease)
      → claim_case formats owner duration now b ≡ ok (l, c)
      → (row : QueueRow) × (b.queue ≡ some row) × TookRow owner duration now b c row l
  unfolding claim_case
  claim_case-TookRow owner duration now b c l h = elim (Option-cases b.queue) [
    | inl absent ↦ absurd (ground arith)
    | inr (row, e) ↦ (row, e, claim_row-TookRow owner duration now b c row l (ground arith))
  ]

  -- A claim that succeeds took the row that the query selects, and wrote no other delivery.
  pub claim-TookRow :
      (owner : Text) (duration : ℤ) (now : ℕ) (s t : Store) (l : Lease)
      → claim formats owner duration now s ≡ ok (l, t)
      → (due : Case) × (b : Case) × (c : Case) × (row : QueueRow) × (first_due
            (formats.timestamp now)
            s
          ≡ some due)
        × (find_case (ref_of due.delivery) s ≡ some b)
        × (t ≡ put_case (ref_of due.delivery) c s)
        × (b.queue ≡ some row)
        × TookRow owner (pos_part duration) now b c row l
  unfolding claim
  claim-TookRow owner duration now s t l h =
      elim (Option-cases (first_due (formats.timestamp now) s)) [
        | inl idle ↦ absurd (ground arith)
        | inr (due, e) ↦
            let (b, c, w) =
              in_case-Wrote (ref_of due.delivery) QueueError.no_runnable_delivery
                (claim_case formats owner (pos_part duration) now) s l t (ground arith) in
            let (row, k, took) = claim_case-TookRow owner (pos_part duration) now b c l w.worked in
            (due, b, c, row, e, w.found, w.written, k, took)
      ]

-- ===== src/Queue/Endings.antt =====
-- The moves of a leased delivery and the operations of callers without a lease: the projection
-- and the events change only together.
use chronos_code.Base.{Text, ℕ, ◌++◌, ok, >>=-eq-ok, Bool-cases, ◌||◌, ◌≡◌, inl, inr, arith, codes}
use chronos_code.Base.Int.{ℤ, pos}
use chronos_code.Delivery.Domain.{Delivery, DeliveryState, state_eq}
use chronos_code.Queue.Rows.{Case, Lease, Outcome, outcome_text, state_text}
use chronos_code.Queue.Cases.{DeliveryRef}
use chronos_code.Queue.Journal.{Formats, transition_in_tx, queue_event_identity}
use chronos_code.Queue.Outcome.{
  transition_case, reach_state, release_case, finish_rows, finalize_case, validate_outcome,
  Disposition,
}
use chronos_code.Queue.Service.{
  insert_row, promote_case, wake_row, signal_case, cancel_rows, cancel_case,
}
use chronos_code.Queue.Evolution.{Evolves, quiet, moves, follows}

module _ (formats : Formats) where
  pub reach_state-Evolves :
      (next : DeliveryState) (action : Text) (epoch : ℤ) (now : ℕ) (b c : Case)
      → reach_state formats next action epoch now b ≡ ok c
      → Evolves formats 2 b c
  unfolding reach_state
  reach_state-Evolves next action epoch now b c h =
      elim (Bool-cases (state_eq b.delivery.state next)) [
        | inl same ↦ quiet (ground arith) (ground arith) (ground arith)
        | inr differs ↦
            moves next (queue_event_identity b.delivery.id action epoch now) (ground arith)
      ]

  pub transition_case-Evolves :
      (lease : Lease) (next : DeliveryState) (later : ℕ) (b c : Case) (d : Delivery)
      → transition_case formats lease next later b ≡ ok (d, c)
      → Evolves formats 2 b c
  unfolding transition_case
  transition_case-Evolves lease next later b c d h =
      moves next
        (queue_event_identity b.delivery.id (codes "transition-" ++ state_text next)
          (pos lease.epoch) later)
        (ground arith)

  pub release_case-Evolves :
      (lease : Lease) (now : ℕ) (b c : Case) (u : Unit {0})
      → release_case formats lease now b ≡ ok (u, c)
      → Evolves formats 2 b c
  unfolding release_case
  release_case-Evolves lease now b c u h =
      let (a, p, q) =
        >>=-eq-ok
          (reach_state formats DeliveryState.queued (codes "release") (pos lease.epoch) now b) _
          h in
      follows
        (reach_state-Evolves DeliveryState.queued (codes "release") (pos lease.epoch) now b a p)
        (quiet {k = 0} (ground arith) (ground arith) (ground arith))

  pub finish_rows-Evolves :
      (lease : Lease) (o : Outcome) (now : ℕ) (d : Disposition) (b c : Case) (r : Delivery)
      → finish_rows formats lease o now d b ≡ ok (r, c)
      → Evolves formats 0 b c
  unfolding finish_rows
  finish_rows-Evolves lease o now d b c r h = quiet (ground arith) (ground arith) (ground arith)

  pub finalize_case-Evolves :
      (lease : Lease) (o : Outcome) (now : ℕ) (b c : Case) (r : Delivery)
      → finalize_case formats lease o now b ≡ ok (r, c)
      → Evolves formats 2 b c
  unfolding finalize_case
  finalize_case-Evolves lease o now b c r h =
      let action = codes "outcome-" ++ outcome_text o.kind in
      let (d, v, p) = >>=-eq-ok (validate_outcome o now) _ h in
      let (a, q, w) = >>=-eq-ok (reach_state formats d.next action (pos lease.epoch) now b) _ p in
      follows (reach_state-Evolves d.next action (pos lease.epoch) now b a q)
        (finish_rows-Evolves lease o now d a c r w)

  pub insert_row-Evolves :
      (now : ℕ) (b c : Case) (d : Delivery)
      → insert_row formats now b ≡ ok (d, c)
      → Evolves formats 0 b c
  unfolding insert_row
  insert_row-Evolves now b c d h = quiet (ground arith) (ground arith) (ground arith)

  pub promote_case-Evolves :
      (ref : DeliveryRef) (expected : ℤ) (now : ℕ) (b c : Case) (d : Delivery)
      → promote_case formats ref expected now b ≡ ok (d, c)
      → Evolves formats 2 b c
  unfolding promote_case
  promote_case-Evolves ref expected now b c d h =
      let i = queue_event_identity ref.id (codes "promote") expected now in
      let (a, p, q) =
        >>=-eq-ok (transition_in_tx formats DeliveryState.queued i b) (insert_row formats now)
          (ground arith) in
      follows (moves {k = 1} DeliveryState.queued i p) (insert_row-Evolves now a c d q)

  pub wake_row-Evolves :
      (now : ℕ) (b c : Case) (u : Unit {0})
      → wake_row formats now b ≡ ok (u, c)
      → Evolves formats 0 b c
  unfolding wake_row
  wake_row-Evolves now b c u h = quiet (ground arith) (ground arith) (ground arith)

  pub signal_case-Evolves :
      (ref : DeliveryRef) (signal : Text) (now : ℕ) (b c : Case) (u : Unit {0})
      → signal_case formats ref signal now b ≡ ok (u, c)
      → Evolves formats 2 b c
  unfolding signal_case
  signal_case-Evolves ref signal now b c u h =
      let i = queue_event_identity ref.id (codes "signal-" ++ signal) b.delivery.version now in
      let (a, p, q) =
        >>=-eq-ok (transition_in_tx formats DeliveryState.queued i b) (wake_row formats now)
          (ground arith) in
      follows (moves {k = 1} DeliveryState.queued i p) (wake_row-Evolves now a c u q)

  pub cancel_rows-Evolves :
      (at : Text) (b c : Case) (u : Unit {0})
      → cancel_rows formats at b ≡ ok (u, c)
      → Evolves formats 0 b c
  unfolding cancel_rows
  cancel_rows-Evolves at b c u h = quiet (ground arith) (ground arith) (ground arith)

  pub cancel_case-Evolves :
      (ref : DeliveryRef) (now : ℕ) (b c : Case) (u : Unit {0})
      → cancel_case formats ref now b ≡ ok (u, c)
      → Evolves formats 2 b c
  unfolding cancel_case
  cancel_case-Evolves ref now b c u h =
      elim (Bool-cases (
        state_eq b.delivery.state DeliveryState.cancel_requested
        || state_eq b.delivery.state DeliveryState.cancelled)) [
          | inl cancelled ↦ quiet (ground arith) (ground arith) (ground arith)
          | inr open' ↦
              let i = queue_event_identity ref.id (codes "cancel") b.delivery.version now in
              let (a, p, q) =
                >>=-eq-ok (transition_in_tx formats DeliveryState.cancel_requested i b)
                  (cancel_rows formats (formats.timestamp now)) (ground arith) in
              follows (moves {k = 1} DeliveryState.cancel_requested i p)
                (cancel_rows-Evolves (formats.timestamp now) a c u q)
        ]

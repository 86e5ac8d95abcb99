-- ===== src/Examples/Queues.antt =====
-- The queue run on one delivery: promoted, claimed by one worker, and claimed by another when the
-- lease has expired; and its projection.
use chronos_code.Base.{
  codes, false, [], ◌∷◌, some, Result, ok, err, ◌≡◌, refl, arith, text_eq, ◌||◌,
}
use chronos_code.Base.Int.{pos, add64}
use chronos_code.Queue.Refinement.{Steps-load}
use chronos_code.Queue.Projection.{original}
use chronos_code.Queue.Replay.{replay_delivery}
use chronos_code.Queue.Loading.{order_by, place}
use chronos_code.Queue.Sorted.{IsLoaded}
use chronos_code.Queue.Claiming.{IsKeyed, claim-blocked}
use chronos_code.Queue.Steps.{Steps, start, later, admitted, claimed, promoted, recorded}
use chronos_code.Queue.Fencing.{Fenced, claim-Fenced, cancel-Fenced}
use chronos_code.Queue.Selection.{first_due, is_runnable, before}
use chronos_code.Queue.Service.{
  queue_admitted, load, validate_delivery_ref, promote_case, insert_row, cancel, cancel_case,
  cancel_rows,
}
use chronos_code.Queue.Cases.{ref_of, find_case, put_case, in_case, ref_eq}
use chronos_code.Queue.Journal.{
  transition_in_tx, append_delivery_event, find_event, queue_event_identity, max_sequence,
}
use chronos_code.Queue.Worker.{
  claim, claim_case, claim_row, close_attempts, max_attempt, record_attempt, requeue, start_running,
  in_lease, is_live,
}
use chronos_code.Queue.Outcome.{transition_lease, transition_case}
use chronos_code.Queue.Admit.{
  Admission, admit, admit_normal, normalize_admission, normalize_requirements, find_admission,
  new_case, admit_case, admitted_delivery, initial,
}
use chronos_code.Delivery.Domain.{
  Delivery, DeliveryState, state_eq, state_in, transition, valid_delivery_transition, allowed_next,
  is_terminal_delivery_state, validate_scope,
}
use chronos_code.Decimal.{format}
use chronos_code.Queue.Append.{append_event, append_case, is_own_type}
use chronos_code.Queue.Rows.{
  Case, Store, Lease, QueueError, DeliveryEvent, DeliveryEventType, EventIdentity, text_leb,
  text_ltb,
}
use chronos_code.Examples.Codecs.{formats, decoders, transitioned-read, admitted-read}

abbrev admission : Admission
admission = record {
  scope = record { tenant_id = codes "t"; repository_id = codes "r" };
  delivery_id = codes "d";
  admission_key = codes "k";
  goal = record {
    revision = pos 1;
    statement = codes "It builds.";
    actor = codes "ann";
    created_at = 1;
  };
  requirements = [];
  policy_reference = codes "p";
  max_cost_microdollars = pos 0;
  event = record { id = codes "e"; idempotency_key = codes "e"; occurred_at = 1 };
}

abbrev delivery : Delivery
delivery = admitted_delivery admission

abbrev value {ℓ} : {A : Type ℓ} → A → Result QueueError A → A
value a (ok b) = b
value a (err e) = a

abbrev nothing : Lease
nothing = record {
  delivery = delivery;
  owner_id = [];
  epoch = 0;
  attempt = 0;
  acquired = 0;
  expires = 0;
  heartbeat = 0;
}

-- The store after each operation, and the leases that the claims return.
abbrev admitting : Delivery × Store
admitting = value (delivery, []) (admit formats admission false 1 [])

abbrev promotion : Delivery × Store
promotion = value (delivery, []) (queue_admitted formats (ref_of delivery) (pos 1) 5 admitting.1)

abbrev first_claim : Lease × Store
first_claim = value (nothing, []) (claim formats (codes "ann") (pos 10) 6 promotion.1)

abbrev second_claim : Lease × Store
second_claim = value (nothing, []) (claim formats (codes "bob") (pos 10) 20 first_claim.1)

abbrev cancellation : Unit {0} × Store
cancellation = value (tt, []) (cancel formats (ref_of delivery) 7 first_claim.1)

abbrev checkpointed : Delivery × Store
checkpointed =
    value (delivery, [])
      (transition_lease formats first_claim.0 DeliveryState.checkpointing 7 7 first_claim.1)

abbrev note : EventIdentity
note = record { id = codes "n"; idempotency_key = codes "n"; occurred_at = 0 }

abbrev no_event : DeliveryEvent
no_event = record {
  id = [];
  sequence = 0;
  type = DeliveryEventType.other [];
  idempotency_key = [];
  occurred_at = 0;
  payload = [];
  request_fingerprint = [];
}

-- An event of a client, recorded while the delivery runs.
abbrev noted : DeliveryEvent × Store
noted =
    value (no_event, [])
      (append_event formats (ref_of delivery) (DeliveryEventType.other (codes "note")) (codes "x")
        note 8 first_claim.1)

abbrev first_row : Store → Case
first_row [] = initial admission [] []
first_row (c ∷ cs) = c

-- What evaluation gives of these stores.
record Runs : Type 0 where
  admits : admit formats admission false 1 [] ≡ ok admitting
  promotes : queue_admitted formats (ref_of delivery) (pos 1) 5 admitting.1 ≡ ok promotion
  claims : claim formats (codes "ann") (pos 10) 6 promotion.1 ≡ ok first_claim
  reclaims : claim formats (codes "bob") (pos 10) 20 first_claim.1 ≡ ok second_claim
  cancels : cancel formats (ref_of first_claim.0.delivery) 7 first_claim.1 ≡ ok cancellation
  same : ref_of first_claim.0.delivery ≡ ref_of second_claim.0.delivery
  found : find_case (ref_of first_claim.0.delivery) first_claim.1 ≡ some (first_row first_claim.1)
  wanted :
      (state_eq (first_row first_claim.1).delivery.state DeliveryState.cancel_requested
        || state_eq (first_row first_claim.1).delivery.state DeliveryState.cancelled)
      ≡ false
  keyed : IsKeyed promotion.1
  stays_keyed : IsKeyed checkpointed.1
  due : first_due (formats.timestamp 20) checkpointed.1 ≡ some (first_row checkpointed.1)
  notes :
      append_event formats
        (ref_of delivery)
        (DeliveryEventType.other (codes "note"))
        (codes "x")
        note
        8
        first_claim.1
      ≡ ok noted
  -- The second time, at another time, the event is in conflict with the one that is there.
  notes_again :
      append_event formats
        (ref_of delivery)
        (DeliveryEventType.other (codes "note"))
        (codes "x")
        note
        9
        noted.1
      ≡ err QueueError.event_conflict
  noted_there : find_case (ref_of delivery) noted.1 ≡ some (first_row noted.1)
  valid : validate_delivery_ref (ref_of delivery) ≡ ok tt
  stuck :
      state_in
        (first_row checkpointed.1).delivery.state
        (DeliveryState.running ∷ DeliveryState.queued ∷ DeliveryState.waiting_retry ∷ [])
      ≡ false

runs : Runs
unfolding claim first_due is_runnable queue_admitted validate_delivery_ref in_case find_case ref_eq
    text_eq promote_case transition_in_tx transition valid_delivery_transition append_delivery_event
    find_event queue_event_identity insert_row put_case add64 format allowed_next
    is_terminal_delivery_state state_in validate_scope max_sequence text_leb text_ltb before
    claim_case claim_row close_attempts max_attempt record_attempt requeue start_running cancel
    cancel_case cancel_rows transition_lease transition_case in_lease is_live IsKeyed admit
    admit_normal normalize_admission normalize_requirements find_admission new_case admit_case
    append_event append_case is_own_type order_by place
runs = record {
  admits = refl;
  promotes = refl;
  claims = refl;
  reclaims = refl;
  cancels = refl;
  same = refl;
  found = refl;
  wanted = refl;
  keyed = (refl, tt);
  stays_keyed = (refl, tt);
  due = refl;
  notes = refl;
  notes_again = refl;
  noted_there = refl;
  valid = refl;
  stuck = refl;
}

claim-Fenced_example : Fenced formats first_claim.0 second_claim.1
claim-Fenced_example =
    claim-Fenced formats promotion.1 first_claim.1 first_claim.1 second_claim.1 second_claim.1
      (codes "ann") (codes "bob") (pos 10) (pos 10) 6 20 first_claim.0 second_claim.0 runs.claims
      start runs.reclaims runs.same start

cancel-Fenced_example : Fenced formats first_claim.0 cancellation.1
cancel-Fenced_example =
    cancel-Fenced formats promotion.1 first_claim.1 first_claim.1 cancellation.1 cancellation.1
      (codes "ann") (pos 10) 6 7 first_claim.0 (first_row first_claim.1) runs.claims start
      runs.found runs.wanted runs.cancels start

four_steps : Steps formats [] noted.1
four_steps =
    later
      (later
        (later (later start (admitted admission false 1 admitting.0 runs.admits))
          (promoted (ref_of delivery) (pos 1) 5 promotion.0 runs.promotes))
        (claimed (codes "ann") (pos 10) 6 first_claim.0 runs.claims))
      (recorded (ref_of delivery) (DeliveryEventType.other (codes "note")) (codes "x") note 8
        noted.0 runs.notes)

Steps-load_example :
    (d : Delivery) × (d' : Delivery) × (replay_delivery decoders (first_row noted.1).events ≡ ok d)
    × (load formats (ref_of delivery) noted.1 ≡ ok d')
    × IsLoaded formats.timestamp d d'
unfolding four_steps
Steps-load_example =
    Steps-load formats decoders (λ p m valid version fits. transitioned-read p) noted.1 four_steps
      (ref_of delivery) (first_row noted.1) (omega arith) runs.noted_there runs.valid
      (admitted-read (original (first_row noted.1).delivery))

claim-blocked_example :
    claim formats (codes "bob") (pos 10) 20 checkpointed.1 ≡ err QueueError.invalid_transition
claim-blocked_example =
    claim-blocked formats (codes "bob") (pos 10) 20 checkpointed.1 (first_row checkpointed.1) refl
      refl runs.stays_keyed runs.due runs.stuck

-- ===== src/Queue/Journal.antt =====
-- The events of a delivery and its transitions in a transaction: appendDeliveryEvent of
-- internal/execution/delivery_store.go, transitionInTx and queueEventIdentity of
-- internal/execution/delivery_queue.go. Go's time.Time.Format and encoding/json are parameters.
use chronos_code.Base.{
  Text, ℕ, suc, ltb, Bool, ◌&&◌, ◌||◌, List, [], ◌∷◌, ◌++◌, Option, none, some, Result, ok, err,
  ◌>>=◌, if◌then◌else◌, codes, text_eq,
}
use chronos_code.Base.Int.{ℤ, pos, negsuc, add64}
use chronos_code.Decimal.{format}
use chronos_code.Delivery.Domain.{Goal, Requirement, Delivery, DeliveryState, transition}
use chronos_code.Queue.Rows.{
  Case, DeliveryEvent, DeliveryEventType, EventIdentity, QueueError, event_type_eq,
}

pub record TransitionedPayload : Type 0 where
  pub from : DeliveryState
  pub to : DeliveryState
  pub version : ℤ

-- What an admission's fingerprint is of, with the times of the goal and the waivers at zero.
pub record AdmissionContent : Type 0 where
  pub delivery_id : Text
  pub goal : Goal
  pub requirements : List Requirement
  pub policy_reference : Text
  pub max_cost_microdollars : ℤ
  pub event_id : Text
  pub event_idempotency_key : Text

-- `timestamp` of a time, `json.Marshal` of the payloads, and the SHA-256 of the JSON of an
-- admission's content.
pub record Formats : Type 0 where
  pub timestamp : ℕ → Text
  pub encode_admitted : Delivery → Text
  pub encode_transitioned : TransitionedPayload → Text
  pub digest_admission : AdmissionContent → Text

-- `%d` of an int64.
abbrev print_int : ℤ → Text
print_int (pos n) = format n
print_int (negsuc n) = b'-' ∷ format (suc n)

-- `queueEventIdentity`.
unfoldable pub queue_event_identity : Text → Text → ℤ → ℕ → EventIdentity
queue_event_identity id action epoch at =
    let key = codes "queue:" ++ id ++ codes ":" ++ action ++ codes ":" ++ print_int epoch in
    record { id = key; idempotency_key = key; occurred_at = at }

-- The row that the query for a duplicate finds.
unfoldable pub find_event : EventIdentity → List DeliveryEvent → Option DeliveryEvent
find_event i [] = none
find_event i (e ∷ es) =
    if text_eq e.idempotency_key i.idempotency_key || text_eq e.id i.id
    then some e
    else find_event i es

-- `COALESCE(MAX(sequence), 0)`.
unfoldable pub max_sequence : List DeliveryEvent → ℕ
max_sequence [] = 0
max_sequence (e ∷ es) = let m = max_sequence es in if ltb m e.sequence then e.sequence else m

-- The delivery after a transition that is recorded under the identity.
abbrev pub moved : Delivery → DeliveryState → EventIdentity → Delivery
moved d next i = record d {
  state = next;
  version = add64 d.version (pos 1);
  updated_at = i.occurred_at;
}

-- The row that is inserted.
abbrev pub new_event :
    List DeliveryEvent → DeliveryEventType → Text → EventIdentity → Text → DeliveryEvent
new_event events type payload i fingerprint = record {
  id = i.id;
  sequence = suc (max_sequence events);
  type = type;
  idempotency_key = i.idempotency_key;
  occurred_at = i.occurred_at;
  payload = payload;
  request_fingerprint = fingerprint;
}

module _ (formats : Formats) where
  -- The stored event is the one that is appended.
  abbrev pub same_event : DeliveryEvent → DeliveryEventType → Text → EventIdentity → Bool
  same_event e type payload i =
      text_eq e.id i.id
      && text_eq e.idempotency_key i.idempotency_key
      && event_type_eq e.type type
      && text_eq e.payload payload
      && text_eq (formats.timestamp e.occurred_at) (formats.timestamp i.occurred_at)

  -- `appendDeliveryEvent`: the events after it.
  unfoldable pub append_delivery_event :
      List DeliveryEvent
      → DeliveryEventType
      → Text
      → EventIdentity
      → Text
      → Result QueueError (List DeliveryEvent)
  append_delivery_event events type payload i fingerprint = elim (find_event i events) [
    | some e ↦ if same_event e type payload i then ok events else err QueueError.event_conflict
    | none ↦ ok (events ++ new_event events type payload i fingerprint ∷ [])
  ]

  -- `transitionInTx`.
  unfoldable pub transition_in_tx : DeliveryState → EventIdentity → Case → Result QueueError Case
  transition_in_tx next i c = elim (transition c.delivery next) [
    | err e ↦ err QueueError.invalid_transition
    | ok d ↦
        let d' = record d { version = add64 d.version (pos 1); updated_at = i.occurred_at } in
        let payload =
          formats.encode_transitioned
            (record { from = c.delivery.state; to = next; version = d'.version }) in
        append_delivery_event c.events DeliveryEventType.transitioned payload i [] >>= λ events.
        ok (record c { delivery = d'; events = events })
  ]

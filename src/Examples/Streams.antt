-- ===== src/Examples/Streams.antt =====
-- A stream of three events.
use chronos_code.Base.{
  Text, codes, text_eq, ℕ, true, List, [], ◌∷◌, some, ok, err, is_ok, ◌≡◌, refl, arith,
}
use chronos_code.Envelope.{
  EventEnvelope, EnvelopeEventType, terminal_not_final, new_event, is_terminal, validate_events,
  validate_event_order,
}
use chronos_code.Envelope.Order.{validate_event_order-accepts}

abbrev event : ℕ → EnvelopeEventType → EventEnvelope
event n type = record {
  schema_version = codes "chronos.execution.v1";
  sequence = n;
  timestamp = 7;
  type = type;
  task_id = codes "t";
  payload = codes "{}";
}

abbrev stream : List EventEnvelope
stream =
    event 1 EnvelopeEventType.session
    ∷ event 2 EnvelopeEventType.content
    ∷ event 3 EnvelopeEventType.completion
    ∷ []

made :
    new_event {P = Text} some 7 1 0 EnvelopeEventType.session (codes "t") (codes "{}")
    ≡ ok (event 1 EnvelopeEventType.session)
unfolding new_event
made = refl

validate_event_order-accepts_example : is_ok (validate_event_order stream) ≡ true
unfolding is_terminal text_eq
validate_event_order-accepts_example = validate_event_order-accepts stream (omega arith)

early_end :
    validate_event_order
      (event 1 EnvelopeEventType.error ∷ event 2 EnvelopeEventType.completion ∷ [])
    ≡ err (terminal_not_final 0)
unfolding validate_event_order validate_events is_terminal text_eq
early_end = refl

-- ===== src/Queue/Append.antt =====
-- An event that a client records: AppendEvent of internal/execution/delivery_store.go.
use chronos_code.Base.{
  Text, ℕ, Bool, ltb, ◌||◌, List, [], is_empty, none, some, Result, ok, refuse, ◌>>=◌, ◌>>◌,
}
use chronos_code.Queue.Rows.{
  Case, Store, DeliveryEvent, DeliveryEventType, EventIdentity, QueueError, event_type_number,
  event_type_eq,
}
use chronos_code.Queue.Cases.{DeliveryRef, in_case}
use chronos_code.Queue.Journal.{Formats, append_delivery_event, find_event, new_event}
use chronos_code.Queue.Service.{validate_delivery_ref}
use chronos_code.Queue.Admit.{or_time}

-- The row of the event that the call returns: the one that is there, or the new one.
abbrev stored_event : List DeliveryEvent → DeliveryEventType → Text → EventIdentity → DeliveryEvent
stored_event events type payload i = elim (find_event i events) [
  | some e ↦ e
  | none ↦ new_event events type payload i []
]

-- The types that change the projection are the store's own.
unfoldable pub is_own_type : DeliveryEventType → Bool
is_own_type type = ltb (event_type_number type) 6

abbrev pub is_nameless : DeliveryEventType → EventIdentity → Bool
is_nameless type i =
    event_type_eq type (DeliveryEventType.other []) || is_empty i.id || is_empty i.idempotency_key

module _ (formats : Formats) where
  unfoldable pub append_case :
      DeliveryEventType → Text → EventIdentity → Case → Result QueueError (DeliveryEvent × Case)
  append_case type payload i c =
      append_delivery_event formats c.events type payload i [] >>= λ events.
      ok (stored_event c.events type payload i, record c { events = events })

  -- `AppendEvent`.
  unfoldable pub append_event :
      DeliveryRef
      → DeliveryEventType
      → Text
      → EventIdentity
      → ℕ
      → Store
      → Result QueueError (DeliveryEvent × Store)
  append_event ref type payload i now s =
      validate_delivery_ref ref
      >> (refuse (is_nameless type i) QueueError.invalid_delivery
          >> (refuse (is_own_type type) QueueError.invalid_delivery
              >> in_case ref QueueError.delivery_not_found
                  (append_case type payload (record i { occurred_at = or_time i.occurred_at now }))
                  s))

-- ===== src/Ledger/Store.antt =====
-- The ledger as an object: internal/execution/ledger.go (`NewLedger` to `Revision`) and `AttachSink`
-- of ledger_store.go. The sink is a parameter: its state, and its answer to an event with the state
-- after it. `cloneEvent` copies, and changes no value.
use Prim.Native.Nat.{min}
use chronos_code.Base.{
  Text, text_eq, is_empty, ℕ, ◌+◌, ◌%◌, ◌^◌, ltb, ◌==◌, ◌&&◌, not, List, [], ◌∷◌, ◌++◌, length,
  drop, if◌then◌else◌, Option, none, some, Result, ok, err,
}
use chronos_code.Base.Int.{ℤ, pos, negsuc}
use chronos_code.Decimal.{format}
use chronos_code.Ledger.Event.{
  Event, LedgerError, is_write, is_verification, is_call, task_mismatch, persist_failed,
}
use chronos_code.Ledger.Reduce.{State, reduce}

pub record Ledger (S : Type 0) : Type 0 where
  pub task_id : Text
  pub events : List Event
  pub next_id : ℕ
  pub revision : ℕ
  pub sink : Option S

-- `uint64` arithmetic.
abbrev pub next64 : ℕ → ℕ
next64 n = (n + 1) % 2 ^ 64

unfoldable pub event_number : Text → ℕ → Text
event_number task n = task ++ (b':' ∷ format n)

-- The sequence number of the last event.
abbrev pub last_sequence : List Event → ℕ
last_sequence [] = 0
last_sequence (e ∷ []) = e.sequence
last_sequence (e ∷ f ∷ es) = last_sequence (f ∷ es)

module _ {S : Type 0} where
  unfoldable pub new_ledger : Text → Ledger S
  new_ledger task = record { task_id = task; events = []; next_id = 0; revision = 0; sink = none }

  unfoldable pub attach_sink : Ledger S → S → Ledger S
  attach_sink l s = record l { sink = some s }

  -- The end of `appendLocked`, where the event is in the durable history.
  unfoldable pub commit : Ledger S → State → Event → Ledger S
  commit l state e = record l {
    task_id = if is_empty l.task_id then state.task_id else l.task_id;
    events = l.events ++ e ∷ [];
    next_id = if ltb l.next_id e.sequence then e.sequence else l.next_id;
    revision = if ltb l.revision e.mutation_revision then e.mutation_revision else l.revision;
  }

  -- The event that `Record` appends: the first part of it, up to `appendLocked`.
  unfoldable pub prepare : Ledger S → Event → Event
  prepare l e =
      let id = event_number l.task_id (next64 l.next_id) in
      record e {
        id = id;
        task_id = l.task_id;
        sequence =
            if is_empty l.events
            then (length l.events + 1) % 2 ^ 64
            else next64 (last_sequence l.events);
        evidence_id =
            if is_verification e.type && is_empty e.evidence_id then id else e.evidence_id;
        call_id = if is_call e.type && is_empty e.call_id then id else e.call_id;
        mutation_revision =
            if is_write e.type
            then next64 l.revision
            else if e.mutation_revision == 0
            then l.revision
            else e.mutation_revision;
      }

  -- The local `revision` of `Record`.
  abbrev pub recorded_revision : Ledger S → Event → ℕ
  recorded_revision l e = if is_write e.type then next64 l.revision else l.revision

  -- `EventsSince`, with the count.
  unfoldable pub events_since : Ledger S → ℤ → List Event × ℕ
  events_since l (pos n) = (drop (min n (length l.events)) l.events, length l.events)
  events_since l (negsuc n) = (l.events, length l.events)

  unfoldable pub state_of : Ledger S → Result LedgerError State
  state_of l = reduce l.events

-- `AppendEvent` of the sink: the sink after it, and its error.
module _ {S : Type 0} (append_event : S → Event → S × Option Text) where
  unfoldable pub persist : Ledger S → State → Event → Ledger S × Option LedgerError
  persist l state e = elim l.sink [
    | none ↦ (commit l state e, none)
    | some s ↦
        let (s', failure) = append_event s e in
        elim failure [
          | none ↦ (commit (record l { sink = some s' }) state e, none)
          | some x ↦ (record l { sink = some s' }, some (persist_failed x))
        ]
  ]

  -- `appendLocked`: the body of `Append`.
  unfoldable pub append : Ledger S → Event → Ledger S × Option LedgerError
  append l e = elim (reduce (l.events ++ e ∷ [])) [
    | err x ↦ (l, some x)
    | ok state ↦
        if not (is_empty l.task_id) && not (text_eq state.task_id l.task_id)
        then (l, some task_mismatch)
        else persist l state e
  ]

  -- `Record`.
  unfoldable pub record_event : Ledger S → Event → Ledger S × Result LedgerError Event
  record_event l e =
      let (l', failure) = append l (prepare l e) in
      elim failure [
        | some x ↦ (l', err x)
        | none ↦ (
          record l' { next_id = next64 l.next_id; revision = recorded_revision l e },
          ok (prepare l e),
        )
      ]

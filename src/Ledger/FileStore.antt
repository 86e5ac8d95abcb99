-- ===== src/Ledger/FileStore.antt =====
-- The durable history of a task: internal/execution/ledger_store.go (`loadLocked`, `Open` and
-- `AppendEvent` of the sink). The file of a task is its bytes; the coding of a record as JSON is a
-- parameter, and so is whether the truncation and the writing of a file succeed.
use chronos_code.Base.{
  is_space, Text, text_eq, is_empty, all, ℕ, ◌==◌, Bool, not, List, [], ◌∷◌, ◌++◌, if◌then◌else◌,
  Option, none, some, Result, ok, err, refuse, ◌>>=◌, ◌>>◌,
}
use chronos_code.Ledger.Event.{Event}
use chronos_code.Ledger.Reduce.{reduce}
use chronos_code.Ledger.Store.{Ledger, new_ledger, append, attach_sink}

pub record LedgerRecord : Type 0 where
  pub version : ℕ
  pub event : Event

abbrev pub ledger_record_version : ℕ
ledger_record_version = 1

pub data StoreError : Type 0 where
  corrupt_record corrupt_history truncate_failed task_required replay_failed : StoreError

-- The whole lines of a file, and what follows the last newline.
unfoldable pub split_lines : Text → Text → List Text × Text
split_lines line [] = ([], line)
split_lines line (c ∷ rest) =
    let next = split_lines [] rest in
    let more = split_lines (line ++ c ∷ []) rest in
    if c == b'\n' then (line ∷ next.0, next.1) else more

abbrev pub is_blank : Text → Bool
is_blank = all is_space

module _ (decode : Text → Option LedgerRecord) where
  -- One line that is not blank.
  unfoldable pub load_record : Text → Text → Result StoreError Event
  unfolding text_eq
  load_record task line = elim (decode line) [
    | none ↦ err corrupt_record
    | some r ↦ do
      refuse (not (r.version == ledger_record_version)) corrupt_record
      refuse (not (text_eq r.event.task_id task)) corrupt_record
      ok r.event
  ]

  -- The loop over the lines.
  unfoldable pub load_lines : Text → List Text → Result StoreError (List Event)
  unfolding load_record
  load_lines task [] = ok []
  load_lines task (line ∷ lines) =
      let rest = load_lines task lines in
      if is_blank line
      then rest
      else (load_record task line >>= λ event. rest >>= λ events. ok (event ∷ events))

-- The lines with their newlines.
abbrev pub join_lines : List Text → Text
join_lines [] = []
join_lines (line ∷ lines) = line ++ (b'\n' ∷ join_lines lines)

unfoldable pub checked : List Event → Result StoreError (List Event)
checked events = elim (reduce events) [ ok s ↦ ok events | err x ↦ err corrupt_history ]

module _ (decode : Text → Option LedgerRecord) (can_truncate : Bool) where
  -- `loadLocked` on a file that is there: the file after it, and the events. A tail with no newline
  -- is cut off.
  unfoldable pub load_data : Text → Text → Text × Result StoreError (List Event)
  load_data task file =
      let (lines, tail) = split_lines [] file in
      elim (load_lines decode task lines) [
        | err x ↦ (file, err x)
        | ok events ↦
            if is_empty tail
            then (file, checked events)
            else if can_truncate
            then (join_lines lines, checked events)
            else (file, err truncate_failed)
      ]

  -- `Load`; `none` is a file that does not exist.
  unfoldable pub load : Text → Option Text → Option Text × Result StoreError (List Event)
  load task none = (none, ok [])
  load task (some file) = (some (load_data task file).0, (load_data task file).1)

-- The loop of `Open` over the events that were loaded.
unfoldable pub replay :
    {S : Type 0}
    → (S → Event → S × Option Text)
    → Ledger S
    → List Event
    → Result StoreError (Ledger S)
replay append_event l [] = ok l
replay append_event l (e ∷ es) =
    let next = append append_event l e in
    let rest = replay append_event next.0 es in
    elim next.1 [ some x ↦ err replay_failed | none ↦ rest ]

-- `Open`, with the sink that it attaches.
unfoldable pub open_ledger :
    {S : Type 0}
    → (S → Event → S × Option Text)
    → S
    → (Text → Option LedgerRecord)
    → Bool
    → Text
    → Option Text
    → Option Text × Result StoreError (Ledger S)
open_ledger append_event sink decode can_truncate task file =
    if is_empty task
    then (file, err task_required)
    else let (file', loaded) = load decode can_truncate task file in
      (
        file',
        loaded >>= λ events.
            replay append_event (new_ledger task) events >>= λ l. ok (attach_sink l sink),
      )

-- `AppendEvent` of the sink: the file after it. A file is made if there is none.
unfoldable pub append_line : (LedgerRecord → Text) → Option Text → Event → Text
append_line encode none e =
    encode (record { version = ledger_record_version; event = e }) ++ b'\n' ∷ []
append_line encode (some file) e =
    file ++ (encode (record { version = ledger_record_version; event = e }) ++ b'\n' ∷ [])

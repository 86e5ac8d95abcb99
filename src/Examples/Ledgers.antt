-- ===== src/Examples/Ledgers.antt =====
-- A task that writes a file, checks it, and writes another file.
use chronos_code.Base.{
  Text, codes, text_eq, has_prefix, trim_suffix, true, false, List, [], ◌∷◌, ◌++◌, Option, none,
  some, ok, is_ok, if◌then◌else◌, ◌==◌, ◌≡◌, ◌≢◌, ◌⊎◌, ◌↔◌, refl, arith,
}
use chronos_code.Decimal.{format}
use chronos_code.Base.Dict.{lookup, has_key, insert, update_all}
use chronos_code.Ledger.Event.{
  Event, EventType, Scope, ScopeKind, valid_command_class, valid_terminal_state, valid_provenance,
  valid_scope, validate_event,
}
use chronos_code.Ledger.Scope.{
  path_within, scope_overlaps, paths_overlap, event_scopes_overlap, verification_inputs_overlap,
}
use chronos_code.Ledger.Reduce.{
  State, empty_state, start, invalidate, invalidate_verification, verification_revision_current,
  record_call, record_verification, record_type, check_order, reduce_event, reduce_from, reduce,
}
use chronos_code.Ledger.Store.{Ledger, event_number, prepare, append, record_event}
use chronos_code.Ledger.FileStore.{LedgerRecord, open_ledger}
use chronos_code.Ledger.History.{is_history, reduce-accepts}
use chronos_code.Ledger.Currency.{reduce-current}
use chronos_code.Ledger.Inside.{LiesIn}
use chronos_code.Ledger.SharedPath.{scope_overlaps-shared}
use chronos_code.Ledger.Recording.{append-outcome}
use chronos_code.Ledger.Recorded.{IsRecorded, record_event-accepts, record_event-IsRecorded}
use chronos_code.Ledger.Recovery.{open_ledger-recovers}
use chronos_code.Policy.Assess.{zero_event}

abbrev task : Text
task = codes "t"

abbrev write_a : Event
write_a = record zero_event {
  id = codes "t:1";
  task_id = task;
  sequence = 1;
  type = EventType.write;
  paths = codes "a.go" ∷ [];
  mutation_revision = 1;
}

abbrev check_a : Event
check_a = record zero_event {
  id = codes "t:2";
  task_id = task;
  sequence = 2;
  type = EventType.verification;
  evidence_id = codes "t:2";
  paths = codes "a.go" ∷ [];
  passed = true;
  mutation_revision = 1;
}

abbrev write_b : Event
write_b = record zero_event {
  id = codes "t:3";
  task_id = task;
  sequence = 3;
  type = EventType.write;
  paths = codes "b.go" ∷ [];
  mutation_revision = 2;
}

abbrev history : List Event
history = write_a ∷ check_a ∷ write_b ∷ []

abbrev final : State
final = record empty_state {
  task_id = task;
  events = history;
  writes = write_a ∷ write_b ∷ [];
  verification = (codes "t:2", record { event = check_a; current = true }) ∷ [];
}

history_reduced : reduce history ≡ ok final
unfolding reduce reduce_from reduce_event check_order validate_event valid_scope valid_command_class
    valid_terminal_state valid_provenance record_type record_verification record_call
    invalidate_verification invalidate verification_revision_current verification_inputs_overlap
    event_scopes_overlap paths_overlap start empty_state has_key update_all insert text_eq
    has_prefix
history_reduced = refl

reduce-accepts_example : is_ok (reduce history) ≡ is_history history
reduce-accepts_example = reduce-accepts history

history_accepted : is_ok (reduce history) ≡ true
history_accepted = rw history_reduced refl

-- The check is current: it saw the write of `a.go`, and the write of `b.go` does not touch it.
reduce-current_example :
    lookup check_a.evidence_id final.verification
    ≡ some (record { event = check_a; current = true })
unfolding verification_inputs_overlap event_scopes_overlap paths_overlap text_eq has_prefix
reduce-current_example = reduce-current (write_a ∷ []) check_a (write_b ∷ []) refl history_reduced

abbrev source_directory : Scope
source_directory = record { kind = ScopeKind.directory; path = codes "src" }

abbrev source_file : Scope
source_file = record { kind = ScopeKind.exact; path = codes "src/a.go" }

scope_overlaps-shared_example :
    (scope_overlaps source_directory source_file ≡ true)
    ↔ ((p : Text) × LiesIn p source_directory × LiesIn p source_file)
scope_overlaps-shared_example = scope_overlaps-shared source_directory source_file

directory_overlaps : scope_overlaps source_directory source_file ≡ true
unfolding scope_overlaps path_within text_eq has_prefix trim_suffix
directory_overlaps = refl

siblings_apart :
    scope_overlaps source_directory (record { kind = ScopeKind.exact; path = codes "src2/a.go" })
    ≡ false
unfolding scope_overlaps path_within text_eq has_prefix trim_suffix
siblings_apart = refl

-- A sink that keeps the events, and has room for two.
abbrev keep_two : List Event → Event → List Event × Option Text
keep_two [] e = (e ∷ [], none)
keep_two (a ∷ []) e = (a ∷ e ∷ [], none)
keep_two full e = (full, some (codes "full"))

abbrev recorded : Ledger (List Event)
recorded = record {
  task_id = task;
  events = write_a ∷ [];
  next_id = 1;
  revision = 1;
  sink = some (write_a ∷ []);
}

append-outcome_example :
    let (l', failure) = append keep_two recorded check_a in
    ((failure ≢ none) × (l' ≡ record recorded { sink = l'.sink }))
    ⊎ ((failure ≡ none)
        × (l'.events ≡ write_a ∷ check_a ∷ [])
        × (is_ok (reduce l'.events) ≡ true)
        × (true ≡ true))
append-outcome_example = append-outcome keep_two recorded check_a

write_accepted : is_ok (reduce (write_a ∷ [])) ≡ true
unfolding reduce reduce_from reduce_event check_order validate_event valid_scope valid_command_class
    valid_terminal_state valid_provenance record_type invalidate_verification start empty_state
    update_all text_eq
write_accepted = refl

recorded-IsRecorded : IsRecorded recorded
unfolding event_number format
recorded-IsRecorded = record {
  has_task = refl;
  accepted = write_accepted;
  named = ((1, refl, omega arith), tt);
  numbered = (omega arith, tt);
  last = refl;
  owned = (refl, tt);
}

-- The caller's event, without the identity that `Record` gives it.
abbrev draft : Event
draft = record zero_event {
  type = EventType.verification;
  paths = codes "a.go" ∷ [];
  passed = true;
}

draft_named : prepare recorded draft ≡ check_a
unfolding prepare event_number format
draft_named = refl

record_event-accepts_example : is_ok (record_event keep_two recorded draft).1 ≡ true
unfolding prepare event_number format validate_event valid_scope valid_command_class
    valid_terminal_state valid_provenance
record_event-accepts_example =
    record_event-accepts keep_two recorded draft recorded-IsRecorded (omega arith)

record_event-IsRecorded_example : IsRecorded (record_event keep_two recorded draft).0
record_event-IsRecorded_example =
    record_event-IsRecorded keep_two recorded draft recorded-IsRecorded (omega arith)

-- A code for two records.
abbrev record_of : Event → LedgerRecord
record_of e = record { version = 1; event = e }

abbrev encode : LedgerRecord → Text
encode r = if r.event.sequence == 1 then codes "W" else codes "C"

abbrev decode : Text → Option LedgerRecord
decode (c ∷ []) =
    if c == b'W'
    then some (record_of write_a)
    else if c == b'C'
    then some (record_of check_a)
    else none
decode _ = none

pair_accepted : is_ok (reduce (write_a ∷ check_a ∷ [])) ≡ true
unfolding reduce reduce_from reduce_event check_order validate_event valid_scope valid_command_class
    valid_terminal_state valid_provenance record_type record_verification invalidate_verification
    verification_revision_current verification_inputs_overlap event_scopes_overlap paths_overlap
    start empty_state has_key update_all insert text_eq has_prefix
pair_accepted = refl

-- The process stopped while it wrote a third record.
open_ledger-recovers_example :
    let file = codes "W\nC\n" in
    let r = open_ledger keep_two [] decode true task (some (file ++ codes "{\"ver")) in
    (l : Ledger (List Event)) × (r.0 ≡ some file)
    × (r.1 ≡ ok l)
    × (l.events ≡ write_a ∷ check_a ∷ [])
    × (l.task_id ≡ task)
    × (l.sink ≡ some [])
open_ledger-recovers_example =
    open_ledger-recovers keep_two [] encode decode task (write_a ∷ check_a ∷ []) (codes "{\"ver")
      refl ((refl, refl, refl, refl), ((refl, refl, refl, refl), tt)) pair_accepted refl

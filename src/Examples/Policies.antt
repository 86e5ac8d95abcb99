-- ===== src/Examples/Policies.antt =====
-- A change that a policy asks to be built and tested.
use chronos_code.Base.{
  Text, codes, text_eq, has_prefix, trim_prefix, trim_suffix, All, true, false, [], ◌∷◌, ◌≡◌, ◌↔◌,
  refl,
}
use chronos_code.Ledger.Event.{Event, EventType, CommandClass}
use chronos_code.Ledger.Scope.{verification_inputs_overlap, event_scopes_overlap, paths_overlap}
use chronos_code.Policy.Obligation.{
  Mode, Kind, Status, Obligation, covers, overlap, matches_runner, matches,
}
use chronos_code.Policy.Derive.{
  Input, text_lt, place, unique, contains_code, new_obligation, mapped_tests, derive_changed,
  derive,
}
use chronos_code.Policy.Assess.{
  zero_event, start_path, path_event, path_state, combine, reduce_obligation, reduce, assess,
}
use chronos_code.Policy.Support.{Supported, assess-enforces, assess-reports}

abbrev input : Input
input = record {
  task_kind = [];
  changed_paths = codes "b.go" ∷ codes "a.go" ∷ codes "b.go" ∷ [];
  impact_paths = [];
  build_command = codes "go build ./...";
  diagnostics = [];
  test_commands = [];
  test_map = (codes "a.go", codes "go test" ∷ []) ∷ (codes "c.go", codes "pytest" ∷ []) ∷ [];
  diff_command = [];
}

abbrev obligation : Kind → Text → Text → CommandClass → Obligation
obligation kind id command class = record {
  id = id;
  kind = kind;
  command = command;
  command_class = class;
  command_family = [];
  check_root = [];
  paths = codes "a.go" ∷ codes "b.go" ∷ [];
  status = Status.pending;
}

abbrev build : Obligation
build =
    obligation Kind.build (codes "build:go build ./...") (codes "go build ./...") CommandClass.build

abbrev test : Obligation
test = obligation Kind.test (codes "test:go test") (codes "go test") CommandClass.test

derived : derive input ≡ build ∷ test ∷ []
unfolding derive derive_changed unique place text_lt contains_code new_obligation mapped_tests
    overlap text_eq has_prefix trim_suffix
derived = refl

-- The tests passed, by a runner with arguments.
abbrev tested : Event
tested = record zero_event {
  type = EventType.verification;
  paths = codes "." ∷ [];
  command = codes "go test ./...";
  passed = true;
}

abbrev changed : Event
changed = record zero_event { type = EventType.write; paths = codes "b.go" ∷ [] }

tests_allow : (assess Mode.enforce true (test ∷ []) (changed ∷ tested ∷ [])).allowed ≡ true
unfolding assess reduce reduce_obligation combine path_state path_event start_path covers overlap
    matches matches_runner text_eq has_prefix trim_prefix trim_suffix verification_inputs_overlap
    event_scopes_overlap paths_overlap
tests_allow = refl

write_blocks : (assess Mode.enforce true (test ∷ []) (tested ∷ changed ∷ [])).allowed ≡ false
unfolding assess reduce reduce_obligation combine path_state path_event start_path covers overlap
    matches matches_runner text_eq has_prefix trim_prefix trim_suffix verification_inputs_overlap
    event_scopes_overlap paths_overlap
write_blocks = refl

assess-enforces_example :
    ((assess Mode.enforce true (test ∷ []) (changed ∷ tested ∷ [])).allowed ≡ true)
    ↔ All (Supported (changed ∷ tested ∷ [])) (test ∷ [])
assess-enforces_example = assess-enforces Mode.enforce (test ∷ []) (changed ∷ tested ∷ []) (λ h. cc)

assess-reports_example :
    let d = assess Mode.enforce true (test ∷ []) (tested ∷ changed ∷ []) in
    ((assess Mode.report true (test ∷ []) (tested ∷ changed ∷ [])).allowed ≡ true)
    × ((assess Mode.enforce false (test ∷ []) (tested ∷ changed ∷ [])).allowed ≡ true)
    × ((d.disagreement ≡ true)
        ↔ ((true ≡ true) × ¬ All (Supported (tested ∷ changed ∷ [])) (test ∷ [])))
assess-reports_example = assess-reports Mode.enforce true (test ∷ []) (tested ∷ changed ∷ [])

-- ===== src/Policy/Assess.antt =====
-- `Reduce` and `Assess` of internal/verification/policy.go: the status of each obligation after the
-- events of the ledger, and the decision.
use chronos_code.Base.{
  Text, codes, has_prefix, trim_prefix, is_empty, all, any, Bool, true, false, ◌&&◌, ◌||◌, not,
  List, [], ◌∷◌, map, none, if◌then◌else◌,
}
use chronos_code.Base.Int.{pos}
use chronos_code.Ledger.Event.{Event, EventType, CommandClass, TerminalState, Provenance}
use chronos_code.Ledger.Scope.{verification_inputs_overlap}
use chronos_code.Policy.Obligation.{
  Mode, Status, Obligation, covers, overlap, matches_detail, matches,
}

pub record Decision : Type 0 where
  pub allowed : Bool
  pub disagreement : Bool
  pub obligations : List Obligation

-- `Event{}`.
abbrev pub zero_event : Event
zero_event = record {
  id = [];
  task_id = [];
  sequence = 0;
  type = EventType.other [];
  call_id = [];
  evidence_id = [];
  paths = [];
  scopes = [];
  direct_input_dirs = [];
  passed = false;
  detail = [];
  content_hash = [];
  size_bytes = pos 0;
  mutation_revision = 0;
  command = [];
  command_class = CommandClass.unset;
  command_family = [];
  check_root = [];
  exit_code = none;
  terminal_state = TerminalState.unset;
  provenance = Provenance.unset;
  started_at = 0;
  completed_at = 0;
}

-- One path of an obligation: `statuses[j]` and `evidence[j]`.
pub record PathState : Type 0 where
  pub status : Status
  pub evidence : Event

unfoldable pub start_path : PathState
start_path = record { status = Status.pending; evidence = zero_event }

abbrev pub is_satisfied : Status → Bool
is_satisfied Status.satisfied = true
is_satisfied _ = false

abbrev is_cancelled : TerminalState → Bool
is_cancelled TerminalState.cancelled = true
is_cancelled _ = false

-- The status that a verification gives.
abbrev pub verified_status : Event → Status
verified_status e =
    if e.passed
    then Status.satisfied
    else if is_cancelled e.terminal_state
    then Status.cancelled
    else Status.failed

-- Whether the event reports that the check was cancelled.
unfoldable pub reports_cancelled : Obligation → Text → Event → Bool
unfolding overlap matches_detail has_prefix trim_prefix
reports_cancelled o path e =
    overlap (path ∷ []) e.paths
    && matches_detail o (trim_prefix e.detail (codes "cancelled:"))
    && has_prefix e.detail (codes "cancelled:")

-- The switch of the inner loop.
unfoldable pub path_event : EventType → Obligation → Text → PathState → Event → PathState
unfolding overlap reports_cancelled
path_event EventType.write o path p e =
    if is_satisfied p.status
      && (overlap (path ∷ []) e.paths || verification_inputs_overlap p.evidence e)
    then record p { status = Status.stale }
    else p
path_event EventType.verification o path p e =
    if covers e.paths path && matches o e
    then record { status = verified_status e; evidence = e }
    else p
path_event EventType.uncertainty o path p e =
    if reports_cancelled o path e then record p { status = Status.cancelled } else p
path_event _ o path p e = p

-- The loop over the events, at one path.
unfoldable pub path_state : Obligation → Text → PathState → List Event → PathState
path_state o path p [] = p
path_state o path p (e ∷ es) = path_state o path (path_event e.type o path p e) es

abbrev pub has_status : Status → List Status → Bool
has_status Status.pending = any (λ s. elim s [ Status.pending ↦ true | _ ↦ false ])
has_status Status.satisfied = any is_satisfied
has_status Status.failed = any (λ s. elim s [ Status.failed ↦ true | _ ↦ false ])
has_status Status.cancelled = any (λ s. elim s [ Status.cancelled ↦ true | _ ↦ false ])
has_status Status.stale = any (λ s. elim s [ Status.stale ↦ true | _ ↦ false ])

-- The status of an obligation from those of its paths.
unfoldable pub combine : List Status → Status
combine statuses =
    if is_empty statuses
    then Status.pending
    else if has_status Status.failed statuses
    then Status.failed
    else if has_status Status.cancelled statuses
    then Status.cancelled
    else if has_status Status.stale statuses
    then Status.stale
    else if has_status Status.pending statuses
    then Status.pending
    else Status.satisfied

unfoldable pub reduce_obligation : List Event → Obligation → Obligation
unfolding combine path_state
reduce_obligation events o = record o {
  status = combine (map (λ path. (path_state o path start_path events).status) o.paths);
}

unfoldable pub reduce : List Obligation → List Event → List Obligation
reduce obligations events = map (reduce_obligation events) obligations

abbrev is_report : Mode → Bool
is_report Mode.report = true
is_report _ = false

unfoldable pub assess : Mode → Bool → List Obligation → List Event → Decision
unfolding reduce
assess mode proposed_success obligations events =
    let current = reduce obligations events in
    let supported = all (λ o. is_satisfied o.status) current in
    let disagreement = proposed_success && not supported in
    record {
      allowed = not disagreement || is_report mode;
      disagreement = disagreement;
      obligations = current;
    }

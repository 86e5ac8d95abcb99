-- ===== src/Ledger/Event.antt =====
-- The events of the ledger and their validation: internal/execution/ledger.go. A Go string type with
-- named values is a data type with `other` for the values that have no name. A time is a number of
-- nanoseconds, 0 for the zero time; a `nil` pointer is `none`.
use chronos_code.Base.{
  Text, codes, text_eq, is_empty, all, ℕ, ltb, ◌==◌, Bool, false, true, ◌&&◌, ◌||◌, not, List,
  Option, Result, refuse, ◌>>◌,
}
use chronos_code.Base.Int.{ℤ, pos, ltb_ℤ}

pub data ScopeKind : Type 0 where
  exact directory workspace : ScopeKind
  other : Text → ScopeKind

pub record Scope : Type 0 where
  pub kind : ScopeKind
  pub path : Text

pub data EventType : Type 0 where
  requirement assumption write model_call tool_call verification uncertainty claim : EventType
  other : Text → EventType

-- `unset` is the empty string.
pub data CommandClass : Type 0 where
  unset unknown build diagnostics test diff read mutation : CommandClass
  other : Text → CommandClass

pub data TerminalState : Type 0 where
  unset exited timed_out cancelled spawn_failed : TerminalState
  other : Text → TerminalState

pub data Provenance : Type 0 where
  unset runtime trusted_adapter : Provenance
  other : Text → Provenance

abbrev pub is_write : EventType → Bool
is_write EventType.write = true
is_write _ = false

abbrev pub is_verification : EventType → Bool
is_verification EventType.verification = true
is_verification _ = false

-- A model call or a tool call.
abbrev pub is_call : EventType → Bool
is_call EventType.model_call = true
is_call EventType.tool_call = true
is_call _ = false

pub record Event : Type 0 where
  pub id : Text
  pub task_id : Text
  pub sequence : ℕ
  pub type : EventType
  pub call_id : Text
  pub evidence_id : Text
  pub paths : List Text
  pub scopes : List Scope
  pub direct_input_dirs : List Text
  pub passed : Bool
  pub detail : Text
  pub content_hash : Text
  pub size_bytes : ℤ
  pub mutation_revision : ℕ
  pub command : Text
  pub command_class : CommandClass
  pub command_family : Text
  pub check_root : Text
  pub exit_code : Option ℤ
  pub terminal_state : TerminalState
  pub provenance : Provenance
  pub started_at : ℕ
  pub completed_at : ℕ

pub data LedgerError : Type 0 where
  duplicate_event_id duplicate_evidence_id duplicate_call_id : LedgerError
  out_of_order_event task_mismatch invalid_event : LedgerError
  -- The error of the sink, passed on.
  persist_failed : Text → LedgerError

-- The strings of the command classes.
unfoldable pub class_text : CommandClass → Text
class_text CommandClass.unset = codes ""
class_text CommandClass.unknown = codes "unknown"
class_text CommandClass.build = codes "build"
class_text CommandClass.diagnostics = codes "diagnostics"
class_text CommandClass.test = codes "test"
class_text CommandClass.diff = codes "diff"
class_text CommandClass.read = codes "read"
class_text CommandClass.mutation = codes "mutation"
class_text (CommandClass.other t) = t

-- `==` on command classes.
unfoldable pub class_eq : CommandClass → CommandClass → Bool
unfolding class_text text_eq
class_eq a b = text_eq (class_text a) (class_text b)

unfoldable pub valid_command_class : CommandClass → Bool
valid_command_class (CommandClass.other t) = false
valid_command_class _ = true

unfoldable pub valid_terminal_state : TerminalState → Bool
valid_terminal_state (TerminalState.other t) = false
valid_terminal_state _ = true

unfoldable pub valid_provenance : Provenance → Bool
valid_provenance (Provenance.other t) = false
valid_provenance _ = true

-- The body of the loop over the scopes: a workspace scope has no path, the others have one.
valid_scope_kind : ScopeKind → Text → Bool
valid_scope_kind ScopeKind.workspace path = is_empty path
valid_scope_kind ScopeKind.exact path = not (is_empty path)
valid_scope_kind ScopeKind.directory path = not (is_empty path)
valid_scope_kind (ScopeKind.other t) path = false

unfoldable pub valid_scope : Scope → Bool
unfolding valid_scope_kind
valid_scope s = valid_scope_kind s.kind s.path

-- The switch on the type at the end of `validateEvent`.
valid_type : EventType → Event → Bool
valid_type EventType.requirement e = true
valid_type EventType.assumption e = true
valid_type EventType.uncertainty e = true
valid_type EventType.claim e = true
valid_type EventType.write e = not (is_empty e.paths && is_empty e.scopes)
valid_type EventType.model_call e = not (is_empty e.call_id)
valid_type EventType.tool_call e = not (is_empty e.call_id)
valid_type EventType.verification e =
    not (is_empty e.evidence_id || (is_empty e.paths && is_empty e.scopes))
valid_type (EventType.other t) e = false

unfoldable pub validate_event : Event → Result LedgerError (Unit {0})
unfolding valid_type valid_scope valid_command_class valid_terminal_state valid_provenance
validate_event e = do
  refuse (is_empty e.id || is_empty e.task_id || e.sequence == 0) invalid_event
  refuse
      (ltb_ℤ e.size_bytes (pos 0)
        || (not (e.started_at == 0)
            && not (e.completed_at == 0)
            && ltb e.completed_at e.started_at))
      invalid_event
  refuse
      (not (valid_command_class e.command_class)
        || not (valid_terminal_state e.terminal_state)
        || not (valid_provenance e.provenance))
      invalid_event
  refuse (not (all valid_scope e.scopes)) invalid_event
  refuse (not (valid_type e.type e)) invalid_event

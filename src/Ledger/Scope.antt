-- ===== src/Ledger/Scope.antt =====
-- Which writes touch the inputs of a check: the overlap of scopes and paths of
-- internal/execution/ledger.go, and internal/execution/verification_inputs.go.
use chronos_code.Base.{
  Text, codes, text_eq, has_text, has_prefix, trim_suffix, is_empty, any, Bool, false, true, ◌&&◌,
  ◌||◌, not, List, ◌++◌, map, if◌then◌else◌,
}
use chronos_code.FilePath.{dir, ext, join}
use chronos_code.Ledger.Event.{Event, Scope, ScopeKind}

abbrev pub is_workspace : ScopeKind → Bool
is_workspace ScopeKind.workspace = true
is_workspace _ = false

abbrev pub is_directory : ScopeKind → Bool
is_directory ScopeKind.directory = true
is_directory _ = false

abbrev pub is_exact : ScopeKind → Bool
is_exact ScopeKind.exact = true
is_exact _ = false

unfoldable pub path_within : Text → Text → Bool
path_within path directory =
    text_eq directory (codes ".")
    || has_prefix path (trim_suffix directory (codes "/") ++ codes "/")

unfoldable pub scope_overlaps : Scope → Scope → Bool
scope_overlaps left right =
    if is_workspace left.kind || is_workspace right.kind
    then true
    else if text_eq left.path right.path
    then true
    else (is_directory left.kind && path_within right.path left.path)
      || (is_directory right.kind && path_within left.path right.path)

unfoldable pub scopes_overlap : List Scope → List Scope → Bool
scopes_overlap left right = any (λ l. any (scope_overlaps l) right) left

unfoldable pub scopes_for_event : Event → List Scope
scopes_for_event e =
    if not (is_empty e.scopes)
    then e.scopes
    else map (λ p. record { kind = ScopeKind.exact; path = p }) e.paths

-- The loop over `right` asks the set of the paths of `left`.
unfoldable pub paths_overlap : List Text → List Text → Bool
paths_overlap left right = any (λ p. has_text p left) right

unfoldable pub event_scopes_overlap : Event → Event → Bool
event_scopes_overlap left right =
    if not (is_empty left.scopes) || not (is_empty right.scopes)
    then scopes_overlap (scopes_for_event left) (scopes_for_event right)
    else paths_overlap left.paths right.paths

-- The body of the loop over the paths that a write changed.
unfoldable pub input_changed : Event → Text → Bool
input_changed check changed =
    any (text_eq (dir changed)) check.direct_input_dirs
    || text_eq changed (join check.check_root (codes "go.mod"))
    || text_eq changed (join check.check_root (codes "go.sum"))
    || (text_eq (ext changed) (codes ".go")
        && any
            (λ scope.
              is_exact scope.kind
              && text_eq (ext scope.path) (codes ".go")
              && text_eq (dir scope.path) (dir changed))
            check.scopes)

unfoldable pub verification_inputs_overlap : Event → Event → Bool
verification_inputs_overlap check write =
    if event_scopes_overlap check write
    then true
    else if not (has_prefix check.command_family (codes "go-"))
    then false
    else any (input_changed check) write.paths

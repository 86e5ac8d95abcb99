-- ===== src/Security/Rules.antt =====
-- The effective policy and one layer of it as YAML gives it: internal/security/policy.go. A nil slice or
-- a nil pointer of the layer is `none`. The compiled patterns, the locks and the directory grants of a
-- session are left out.
use chronos_code.Base.{
  Text, text_eq, is_empty, ℕ, ◌+◌, Bool, true, false, not, List, [], ◌∷◌, ◌++◌, select, any,
  if◌then◌else◌, Option, none, some, Result, ok, err,
}
use chronos_code.Base.Int.{ℤ, pos, leb_ℤ}
use chronos_code.Security.Paths.{path_within}

-- `unset` is the empty string.
pub data McpPermission : Type 0 where
  unset allow require_approval deny : McpPermission
  other : Text → McpPermission

pub record PolicyLayer : Type 0 where
  pub writable_paths : Option (List Text)
  pub readable_paths : Option (List Text)
  pub denied_paths : List Text
  pub allowed_commands : Option (List Text)
  pub denied_patterns : List Text
  pub auto_allow : Option (List Text)
  pub confirm : List Text
  pub never_allow : List Text
  pub max_execution_secs : Option ℤ
  pub scan_output : Option Bool
  pub secret_patterns : List Text
  pub denied_servers : List Text
  pub trusted_servers : Option (List Text)
  pub insecure_hosts : Option (List Text)
  pub default_permission : Option McpPermission
  pub max_connections : Option ℤ
  pub trusted_digests : Option (List Text)

pub record SecurityPolicy : Type 0 where
  pub writable_paths : List Text
  pub readable_paths : List Text
  pub denied_paths : List Text
  pub allowed_commands : List Text
  pub denied_patterns : List Text
  pub max_exec_seconds : ℤ
  pub secret_patterns : List Text
  pub scan_output : Bool
  pub denied_mcp_servers : List Text
  pub trusted_mcp_servers : List Text
  pub allowed_insecure_mcp_hosts : List Text
  pub mcp_default_permission : McpPermission
  pub max_mcp_connections : ℤ
  pub trusted_hook_digests : List Text
  pub auto_allow_patterns : List Text
  pub confirm_patterns : List Text
  pub never_allow_patterns : List Text
  pub writable_paths_specified : Bool
  pub readable_paths_specified : Bool
  pub allowed_commands_set : Bool

-- The lists that an error names.
pub data Field : Type 0 where
  writable_paths readable_paths allowed_commands auto_allow trusted_servers : Field
  insecure_hosts confirm never_allow secret_patterns : Field

pub data PolicyError : Type 0 where
  parse_failed : PolicyError
  bad_pattern path_empty broadens : Field → ℕ → PolicyError
  max_execution_not_positive max_execution_exceeds scan_disabled : PolicyError
  permission_invalid permission_weakens : PolicyError
  connections_not_positive connections_exceed connections_negative : PolicyError
  digests_not_user : PolicyError

abbrev pub default_max_exec_seconds : ℕ
default_max_exec_seconds = 300

-- A nil slice is an empty one where it is read.
abbrev pub list_or_empty : Option (List Text) → List Text
list_or_empty none = []
list_or_empty (some xs) = xs

abbrev pub is_set {ℓ} : {A : Type ℓ} → Option A → Bool
is_set none = false
is_set (some a) = true

abbrev exec_seconds : Option ℤ → ℤ
exec_seconds none = pos default_max_exec_seconds
exec_seconds (some n) = if leb_ℤ n (pos 0) then pos default_max_exec_seconds else n

abbrev pub value_or {ℓ} : {A : Type ℓ} → A → Option A → A
value_or a none = a
value_or a (some b) = b

unfoldable pub policy_from_raw : PolicyLayer → SecurityPolicy
policy_from_raw raw = record {
  writable_paths = list_or_empty raw.writable_paths;
  readable_paths = list_or_empty raw.readable_paths;
  denied_paths = raw.denied_paths;
  allowed_commands = list_or_empty raw.allowed_commands;
  denied_patterns = raw.denied_patterns;
  max_exec_seconds = exec_seconds raw.max_execution_secs;
  secret_patterns = raw.secret_patterns;
  scan_output = value_or false raw.scan_output;
  denied_mcp_servers = raw.denied_servers;
  trusted_mcp_servers = list_or_empty raw.trusted_servers;
  allowed_insecure_mcp_hosts = list_or_empty raw.insecure_hosts;
  mcp_default_permission = value_or McpPermission.unset raw.default_permission;
  max_mcp_connections = value_or (pos 0) raw.max_connections;
  trusted_hook_digests = list_or_empty raw.trusted_digests;
  auto_allow_patterns = list_or_empty raw.auto_allow;
  confirm_patterns = raw.confirm;
  never_allow_patterns = raw.never_allow;
  writable_paths_specified = is_set raw.writable_paths;
  readable_paths_specified = is_set raw.readable_paths;
  allowed_commands_set = is_set raw.allowed_commands;
}

-- `contains(values, target)`.
unfoldable pub contains : List Text → Text → Bool
contains values target = any (λ value. text_eq value target) values

-- The loop of `union`, over `out`.
unfoldable pub union : List Text → List Text → List Text
unfolding contains
union current [] = current
union current (value ∷ additions) =
    union (if contains current value then current else current ++ value ∷ []) additions

unfoldable pub difference : List Text → List Text → List Text
unfolding contains
difference values denied = select (λ value. not (contains denied value)) values

-- `none` is -1; the number counts the values before.
unfoldable pub first_not_in : ℕ → List Text → List Text → Option ℕ
unfolding contains
first_not_in i [] allowed = none
first_not_in i (value ∷ values) allowed =
    let rest = first_not_in (i + 1) values allowed in
    if contains allowed value then rest else some i

unfoldable pub validate_narrower_paths :
    Field → ℕ → List Text → List Text → Result PolicyError (Unit {0})
validate_narrower_paths field i current [] = ok tt
validate_narrower_paths field i current (path ∷ proposed) =
    let rest = validate_narrower_paths field (i + 1) current proposed in
    if is_empty path
    then err (path_empty field i)
    else if any (λ allowed. path_within allowed path) current
    then rest
    else err (broadens field i)

unfoldable pub valid_mcp_permission : McpPermission → Bool
valid_mcp_permission McpPermission.allow = true
valid_mcp_permission McpPermission.require_approval = true
valid_mcp_permission McpPermission.deny = true
valid_mcp_permission _ = false

unfoldable pub permission_strength : McpPermission → ℕ
permission_strength McpPermission.deny = 2
permission_strength McpPermission.require_approval = 1
permission_strength McpPermission.unset = 1
permission_strength _ = 0

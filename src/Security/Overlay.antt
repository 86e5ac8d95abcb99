-- ===== src/Security/Overlay.antt =====
-- `ResolvePolicy`, `applyOverlay` and `LoadPolicy` of internal/security/policy.go. A layer whose YAML
-- cannot be parsed is `none`, and whether a pattern compiles as a regular expression is a parameter.
use chronos_code.Base.{
  Text, codes, text_eq, ℕ, ltb, Bool, true, false, ◌&&◌, not, List, [], ◌∷◌, if◌then◌else◌, Option,
  none, some, Result, ok, err, refuse, ◌>>=◌, ◌>>◌, ◌+◌,
}
use chronos_code.Base.Int.{ℤ, pos, leb_ℤ, ltb_ℤ}
use chronos_code.Security.Rules.{
  McpPermission, PolicyLayer, SecurityPolicy, Field, PolicyError, parse_failed, bad_pattern,
  broadens, max_execution_not_positive, max_execution_exceeds, scan_disabled, permission_invalid,
  permission_weakens, connections_not_positive, connections_exceed, connections_negative,
  digests_not_user, policy_from_raw, union, difference, first_not_in, validate_narrower_paths,
  valid_mcp_permission, permission_strength, list_or_empty,
}

-- A list of paths that the layer may replace by a narrower one.
unfoldable pub narrow_paths :
    Field → List Text → Option (List Text) → Result PolicyError (List Text)
narrow_paths field current none = ok current
narrow_paths field current (some proposed) = do
  validate_narrower_paths field 0 current proposed
  ok proposed

-- A list that the layer may replace by a part of it.
unfoldable pub narrow_list : Field → List Text → Option (List Text) → Result PolicyError (List Text)
narrow_list field current none = ok current
narrow_list field current (some proposed) = elim (first_not_in 0 proposed current) [
  | some i ↦ err (broadens field i)
  | none ↦ ok proposed
]

-- The limit on the time of an execution.
unfoldable pub narrow_seconds : ℤ → Option ℤ → Result PolicyError ℤ
narrow_seconds current none = ok current
narrow_seconds current (some n) = do
  refuse (leb_ℤ n (pos 0)) max_execution_not_positive
  refuse (ltb_ℤ (pos 0) current && ltb_ℤ current n) max_execution_exceeds
  ok n

unfoldable pub narrow_scan : Bool → Option Bool → Result PolicyError Bool
narrow_scan current none = ok current
narrow_scan current (some b) = do refuse (current && not b) scan_disabled; ok b

unfoldable pub narrow_permission :
    McpPermission → Option McpPermission → Result PolicyError McpPermission
narrow_permission current none = ok current
narrow_permission current (some p) = do
  refuse (not (valid_mcp_permission p)) permission_invalid
  refuse (ltb (permission_strength p) (permission_strength current)) permission_weakens
  ok p

unfoldable pub narrow_connections : ℤ → Option ℤ → Result PolicyError ℤ
narrow_connections current none = ok current
narrow_connections current (some n) = do
  refuse (leb_ℤ n (pos 0)) connections_not_positive
  refuse (ltb_ℤ (pos 0) current && ltb_ℤ current n) connections_exceed
  ok n

-- A flag that a layer sets by giving the list.
abbrev pub set_by : Option (List Text) → Bool → Bool
set_by none b = b
set_by (some xs) b = true

unfoldable pub apply_overlay : SecurityPolicy → PolicyLayer → Result PolicyError SecurityPolicy
apply_overlay p raw = do
  writable ← narrow_paths Field.writable_paths p.writable_paths raw.writable_paths
  readable ← narrow_paths Field.readable_paths p.readable_paths raw.readable_paths
  commands ← narrow_list Field.allowed_commands p.allowed_commands raw.allowed_commands
  auto ← narrow_list Field.auto_allow p.auto_allow_patterns raw.auto_allow
  seconds ← narrow_seconds p.max_exec_seconds raw.max_execution_secs
  scan ← narrow_scan p.scan_output raw.scan_output
  trusted ← narrow_list Field.trusted_servers p.trusted_mcp_servers raw.trusted_servers
  hosts ← narrow_list Field.insecure_hosts p.allowed_insecure_mcp_hosts raw.insecure_hosts
  permission ← narrow_permission p.mcp_default_permission raw.default_permission
  connections ← narrow_connections p.max_mcp_connections raw.max_connections
  let denied = union p.denied_mcp_servers raw.denied_servers
  ok (record p {
    writable_paths = writable;
    readable_paths = readable;
    denied_paths = union p.denied_paths raw.denied_paths;
    allowed_commands = commands;
    denied_patterns = union p.denied_patterns raw.denied_patterns;
    max_exec_seconds = seconds;
    secret_patterns = union p.secret_patterns raw.secret_patterns;
    scan_output = scan;
    denied_mcp_servers = denied;
    trusted_mcp_servers = difference trusted denied;
    allowed_insecure_mcp_hosts = hosts;
    mcp_default_permission = permission;
    max_mcp_connections = connections;
    auto_allow_patterns = auto;
    confirm_patterns = union p.confirm_patterns raw.confirm;
    never_allow_patterns = union p.never_allow_patterns raw.never_allow;
    writable_paths_specified = set_by raw.writable_paths p.writable_paths_specified;
    readable_paths_specified = set_by raw.readable_paths p.readable_paths_specified;
    allowed_commands_set = set_by raw.allowed_commands p.allowed_commands_set;
  })

-- A permission that is set and has no name.
abbrev is_unknown : McpPermission → Bool
is_unknown McpPermission.unset = false
is_unknown permission = not (valid_mcp_permission permission)

-- A layer with the name of its source.
pub record Overlay : Type 0 where
  pub source : Text
  pub layer : Option PolicyLayer

-- The hooks that only the user's own policy may trust.
unfoldable pub trust_digests :
    Text → Option (List Text) → SecurityPolicy → Result PolicyError SecurityPolicy
unfolding text_eq
trust_digests source none p = ok p
trust_digests source (some digests) p = do
  refuse (not (text_eq source (codes "user"))) digests_not_user
  ok (record p { trusted_hook_digests = union p.trusted_hook_digests digests })

module _ (compiles : Text → Bool) where
  unfoldable pub compile_patterns : Field → ℕ → List Text → Result PolicyError (Unit {0})
  compile_patterns field i [] = ok tt
  compile_patterns field i (pattern ∷ patterns) =
      let rest = compile_patterns field (i + 1) patterns in
      if compiles pattern then rest else err (bad_pattern field i)

  unfoldable pub validate_raw_patterns : PolicyLayer → Result PolicyError (Unit {0})
  validate_raw_patterns raw = do
    compile_patterns Field.auto_allow 0 (list_or_empty raw.auto_allow)
    compile_patterns Field.confirm 0 raw.confirm
    compile_patterns Field.never_allow 0 raw.never_allow
    compile_patterns Field.secret_patterns 0 raw.secret_patterns

  unfoldable pub compile : SecurityPolicy → Result PolicyError (Unit {0})
  compile p = do
    compile_patterns Field.auto_allow 0 p.auto_allow_patterns
    compile_patterns Field.confirm 0 p.confirm_patterns
    compile_patterns Field.never_allow 0 p.never_allow_patterns
    compile_patterns Field.secret_patterns 0 p.secret_patterns
    refuse (is_unknown p.mcp_default_permission) permission_invalid
    refuse (ltb_ℤ p.max_mcp_connections (pos 0)) connections_negative

  unfoldable pub load_policy : Option PolicyLayer → Result PolicyError SecurityPolicy
  load_policy none = err parse_failed
  load_policy (some raw) = do compile (policy_from_raw raw); ok (policy_from_raw raw)

  -- One round of the loop over the overlays.
  unfoldable pub overlay_round : SecurityPolicy → Overlay → Result PolicyError SecurityPolicy
  overlay_round p overlay = elim overlay.layer [
    | none ↦ err parse_failed
    | some raw ↦ do
      validate_raw_patterns raw
      p' ← apply_overlay p raw
      trust_digests overlay.source raw.trusted_digests p'
  ]

  unfoldable pub overlay_rounds : SecurityPolicy → List Overlay → Result PolicyError SecurityPolicy
  overlay_rounds p [] = ok p
  overlay_rounds p (overlay ∷ overlays) = do
    p' ← overlay_round p overlay
    overlay_rounds p' overlays

  abbrev approved_by_default : McpPermission → McpPermission
  approved_by_default McpPermission.unset = McpPermission.require_approval
  approved_by_default permission = permission

  -- What the embedded floor gives, before the overlays.
  unfoldable pub floor_policy : Option PolicyLayer → Result PolicyError SecurityPolicy
  floor_policy floor = do
    p ← load_policy floor
    ok (record p { mcp_default_permission = approved_by_default p.mcp_default_permission })

  unfoldable pub resolve_policy :
      Option PolicyLayer → List Overlay → Result PolicyError SecurityPolicy
  resolve_policy floor overlays = do
    p ← floor_policy floor
    p' ← overlay_rounds p overlays
    compile p'
    ok p'

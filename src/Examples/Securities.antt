-- ===== src/Examples/Securities.antt =====
-- A floor with two layers, and grants of trust to a server.
use chronos_code.Base.{
  Text, codes, text_eq, any, Bool, true, false, List, [], ◌∷◌, if◌then◌else◌, none, some, ok, ◌≡◌,
  refl, arith,
}
use chronos_code.Base.Int.{pos}
use chronos_code.Security.Rules.{
  McpPermission, PolicyLayer, SecurityPolicy, contains, union, difference, policy_from_raw,
  first_not_in, permission_strength, valid_mcp_permission, validate_narrower_paths,
}
use chronos_code.Security.Paths.{path_within}
use chronos_code.FilePath.{clean, parts, rel, strip_shared}
use chronos_code.Security.Overlay.{
  Overlay, resolve_policy, floor_policy, load_policy, apply_overlay, compile, compile_patterns,
  overlay_rounds, overlay_round, validate_raw_patterns, narrow_paths, narrow_list, narrow_seconds,
  narrow_scan, narrow_permission, narrow_connections, trust_digests,
}
use chronos_code.Security.Ratchet.{IsStricter}
use chronos_code.Security.Resolve.{
  Obeys, resolve_policy-IsStricter, resolve_policy-Obeys, resolve_policy-digests,
}
use chronos_code.Security.Mcp.{
  McpServerIdentity, identity_bytes, or_approval, digest, decide_server, trust_configured,
  allow_session, write, write_all,
}
use chronos_code.Security.Mcp.Identity.{HasSizes, identity_bytes-injective}
use chronos_code.Security.Mcp.Trust.{
  McpCall, configured, session, fresh, grants, mcp_calls, decide_server-permission,
}

abbrev empty_layer : PolicyLayer
empty_layer = record {
  writable_paths = none;
  readable_paths = none;
  denied_paths = [];
  allowed_commands = none;
  denied_patterns = [];
  auto_allow = none;
  confirm = [];
  never_allow = [];
  max_execution_secs = none;
  scan_output = none;
  secret_patterns = [];
  denied_servers = [];
  trusted_servers = none;
  insecure_hosts = none;
  default_permission = none;
  max_connections = none;
  trusted_digests = none;
}

abbrev floor_layer : PolicyLayer
floor_layer = record empty_layer {
  writable_paths = some (codes "/w" ∷ []);
  allowed_commands = some (codes "go" ∷ codes "ls" ∷ []);
  never_allow = codes "rm" ∷ [];
  scan_output = some true;
  trusted_servers = some (codes "docs" ∷ codes "web" ∷ []);
  max_connections = some (pos 8);
}

abbrev user_layer : PolicyLayer
user_layer = record empty_layer {
  allowed_commands = some (codes "go" ∷ []);
  denied_servers = codes "web" ∷ [];
  trusted_digests = some (codes "d1" ∷ []);
}

abbrev project_layer : PolicyLayer
project_layer = record empty_layer {
  writable_paths = some (codes "/w/src" ∷ []);
  confirm = codes "git" ∷ [];
  max_execution_secs = some (pos 60);
  default_permission = some McpPermission.deny;
}

abbrev user : Overlay
user = record { source = codes "user"; layer = some user_layer }

abbrev project : Overlay
project = record { source = codes "project"; layer = some project_layer }

abbrev always : Text → Bool
always pattern = true

abbrev pub resolved : SecurityPolicy
resolved = record {
  writable_paths = codes "/w/src" ∷ [];
  readable_paths = [];
  denied_paths = [];
  allowed_commands = codes "go" ∷ [];
  denied_patterns = [];
  max_exec_seconds = pos 60;
  secret_patterns = [];
  scan_output = true;
  denied_mcp_servers = codes "web" ∷ [];
  trusted_mcp_servers = codes "docs" ∷ [];
  allowed_insecure_mcp_hosts = [];
  mcp_default_permission = McpPermission.deny;
  max_mcp_connections = pos 8;
  trusted_hook_digests = codes "d1" ∷ [];
  auto_allow_patterns = [];
  confirm_patterns = codes "git" ∷ [];
  never_allow_patterns = codes "rm" ∷ [];
  writable_paths_specified = true;
  readable_paths_specified = false;
  allowed_commands_set = true;
}

resolved_run : resolve_policy always (some floor_layer) (user ∷ project ∷ []) ≡ ok resolved
unfolding resolve_policy floor_policy load_policy compile compile_patterns policy_from_raw
    overlay_rounds overlay_round validate_raw_patterns apply_overlay narrow_paths narrow_list
    first_not_in text_eq narrow_seconds narrow_scan narrow_permission narrow_connections clean parts
    rel strip_shared trust_digests path_within contains difference permission_strength union
    valid_mcp_permission validate_narrower_paths
resolved_run = refl

resolve_policy-IsStricter_example :
    (f : SecurityPolicy) × (floor_policy always (some floor_layer) ≡ ok f) × IsStricter f resolved
resolve_policy-IsStricter_example =
    resolve_policy-IsStricter always (some floor_layer) (user ∷ project ∷ []) resolved_run

resolve_policy-Obeys_example : Obeys project_layer resolved
resolve_policy-Obeys_example =
    resolve_policy-Obeys always (some floor_layer) (user ∷ []) project [] project_layer refl
      resolved_run

abbrev narrowed : SecurityPolicy
narrowed = record resolved {
  allowed_commands = codes "go" ∷ codes "ls" ∷ [];
  denied_mcp_servers = [];
  trusted_mcp_servers = codes "docs" ∷ codes "web" ∷ [];
  trusted_hook_digests = [];
}

narrowed_run : resolve_policy always (some floor_layer) (project ∷ []) ≡ ok narrowed
unfolding resolve_policy floor_policy load_policy compile compile_patterns policy_from_raw
    overlay_rounds overlay_round validate_raw_patterns apply_overlay narrow_paths narrow_list
    first_not_in text_eq narrow_seconds narrow_scan narrow_permission narrow_connections clean parts
    rel strip_shared trust_digests path_within contains difference permission_strength union
    valid_mcp_permission validate_narrower_paths
narrowed_run = refl

resolve_policy-digests_example :
    (f : SecurityPolicy) × (floor_policy always (some floor_layer) ≡ ok f)
    × (narrowed.trusted_hook_digests ≡ f.trusted_hook_digests)
unfolding text_eq
resolve_policy-digests_example =
    resolve_policy-digests always (some floor_layer) (project ∷ []) refl narrowed_run

abbrev server : McpServerIdentity
server = record {
  name = codes "docs";
  origin = codes "user";
  config_digest = codes "c0";
  transport = codes "stdio";
  command = codes "npx";
  args = codes "-y" ∷ codes "docs" ∷ [];
  url = [];
}

server-HasSizes : HasSizes server
server-HasSizes = record {
  name = omega arith;
  origin = omega arith;
  config_digest = omega arith;
  transport = omega arith;
  command = omega arith;
  count = omega arith;
  args = (omega arith, (omega arith, tt));
  url = omega arith;
}

identity_bytes-injective_example : server ≡ server
identity_bytes-injective_example =
    identity_bytes-injective server server server-HasSizes server-HasSizes refl

abbrev first_bytes : Text → Text
first_bytes t = t

abbrev calls : List McpCall
calls = session (record server { name = codes "web" }) ∷ configured server ∷ []

decide_server-permission_example :
    (decide_server first_bytes
      (mcp_calls first_bytes (some (fresh resolved)) calls)
      server).permission
    ≡ (if contains resolved.denied_mcp_servers server.name
        then McpPermission.deny
        else if any (grants first_bytes resolved (digest first_bytes server)) calls
        then McpPermission.allow
        else or_approval resolved.mcp_default_permission)
decide_server-permission_example = decide_server-permission first_bytes resolved calls server

-- The server is trusted by the second call.
server_run :
    (decide_server first_bytes
      (mcp_calls first_bytes (some (fresh resolved)) calls)
      server).permission
    ≡ McpPermission.allow
unfolding decide_server trust_configured allow_session contains text_eq identity_bytes write
    write_all
server_run = refl

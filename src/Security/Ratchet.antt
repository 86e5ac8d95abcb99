-- ===== src/Security/Ratchet.antt =====
-- What a layer can change in a policy, and what a resolved policy keeps of its floor.
use chronos_code.Base.{
  Text, codes, text_eq, ◌≤◌, true, not, List, [], ◌∷◌, Option, none, some, Bool, refuse,
  Option-cases, inl, inr, ok, >>=-eq-ok, ok-injective, ◌≡◌, arith,
}
use mathlib.Core.Path.{subst}
use chronos_code.Base.Int.{ℤ, pos, ◌≤ℤ◌, ◌<ℤ◌}
use chronos_code.Security.Rules.{
  McpPermission, PolicyLayer, SecurityPolicy, Field, digests_not_user, union, difference,
  permission_strength,
}
use chronos_code.Security.Overlay.{
  Overlay, narrow_paths, narrow_list, narrow_seconds, narrow_scan, narrow_permission,
  narrow_connections, apply_overlay, trust_digests, validate_raw_patterns, overlay_round,
  overlay_rounds, set_by,
}
use chronos_code.Security.Command.{shell_command_allowed}
use chronos_code.Security.Allowed.{narrowed-shell_command_allowed}
use chronos_code.Security.Sets.{
  IncludedIn, CoveredBy, union-left, contains-difference, narrow_list-IncludedIn,
  narrow_paths-CoveredBy, CoveredBy-refl, CoveredBy-trans,
}

-- Nothing that `floor` denies, asks to confirm or limits is allowed, silent or unlimited in `p`.
pub record IsStricter (floor p : SecurityPolicy) : Type 0 where
  pub writable : CoveredBy p.writable_paths floor.writable_paths
  pub readable : CoveredBy p.readable_paths floor.readable_paths
  pub denied_paths : IncludedIn floor.denied_paths p.denied_paths
  pub commands : IncludedIn p.allowed_commands floor.allowed_commands
  -- The commands that the list lets through, where a list that is given but empty lets none.
  pub runs :
      (command : Text)
      → shell_command_allowed p command ≡ true
      → shell_command_allowed floor command ≡ true
  pub commands_set : floor.allowed_commands_set ≡ true → p.allowed_commands_set ≡ true
  pub writable_set : floor.writable_paths_specified ≡ true → p.writable_paths_specified ≡ true
  pub readable_set : floor.readable_paths_specified ≡ true → p.readable_paths_specified ≡ true
  pub auto_allow : IncludedIn p.auto_allow_patterns floor.auto_allow_patterns
  pub denied_patterns : IncludedIn floor.denied_patterns p.denied_patterns
  pub confirm : IncludedIn floor.confirm_patterns p.confirm_patterns
  pub never_allow : IncludedIn floor.never_allow_patterns p.never_allow_patterns
  pub secrets : IncludedIn floor.secret_patterns p.secret_patterns
  pub denied_servers : IncludedIn floor.denied_mcp_servers p.denied_mcp_servers
  pub trusted_servers : IncludedIn p.trusted_mcp_servers floor.trusted_mcp_servers
  pub hosts : IncludedIn p.allowed_insecure_mcp_hosts floor.allowed_insecure_mcp_hosts
  pub seconds :
      pos 0 <ℤ floor.max_exec_seconds
      → (pos 0 <ℤ p.max_exec_seconds) × (p.max_exec_seconds ≤ℤ floor.max_exec_seconds)
  pub scan : floor.scan_output ≡ true → p.scan_output ≡ true
  pub permission :
      permission_strength floor.mcp_default_permission
      ≤ permission_strength p.mcp_default_permission
  pub connections :
      pos 0 <ℤ floor.max_mcp_connections
      → (pos 0 <ℤ p.max_mcp_connections) × (p.max_mcp_connections ≤ℤ floor.max_mcp_connections)

-- The parts of a layer that is applied.
pub record Applied (p : SecurityPolicy) (raw : PolicyLayer) (p' : SecurityPolicy) : Type 0 where
  pub writable :
      narrow_paths Field.writable_paths p.writable_paths raw.writable_paths ≡ ok p'.writable_paths
  pub readable :
      narrow_paths Field.readable_paths p.readable_paths raw.readable_paths ≡ ok p'.readable_paths
  pub commands :
      narrow_list Field.allowed_commands p.allowed_commands raw.allowed_commands
      ≡ ok p'.allowed_commands
  pub auto :
      narrow_list Field.auto_allow p.auto_allow_patterns raw.auto_allow ≡ ok p'.auto_allow_patterns
  pub seconds : narrow_seconds p.max_exec_seconds raw.max_execution_secs ≡ ok p'.max_exec_seconds
  pub scan : narrow_scan p.scan_output raw.scan_output ≡ ok p'.scan_output
  pub hosts :
      narrow_list Field.insecure_hosts p.allowed_insecure_mcp_hosts raw.insecure_hosts
      ≡ ok p'.allowed_insecure_mcp_hosts
  pub permission :
      narrow_permission p.mcp_default_permission raw.default_permission
      ≡ ok p'.mcp_default_permission
  pub connections :
      narrow_connections p.max_mcp_connections raw.max_connections ≡ ok p'.max_mcp_connections
  pub denied_paths : p'.denied_paths ≡ union p.denied_paths raw.denied_paths
  pub denied_patterns : p'.denied_patterns ≡ union p.denied_patterns raw.denied_patterns
  pub secrets : p'.secret_patterns ≡ union p.secret_patterns raw.secret_patterns
  pub confirm : p'.confirm_patterns ≡ union p.confirm_patterns raw.confirm
  pub never_allow : p'.never_allow_patterns ≡ union p.never_allow_patterns raw.never_allow
  pub denied_servers : p'.denied_mcp_servers ≡ union p.denied_mcp_servers raw.denied_servers
  pub digests : p'.trusted_hook_digests ≡ p.trusted_hook_digests
  pub commands_set : p'.allowed_commands_set ≡ set_by raw.allowed_commands p.allowed_commands_set
  pub writable_set :
      p'.writable_paths_specified ≡ set_by raw.writable_paths p.writable_paths_specified
  pub readable_set :
      p'.readable_paths_specified ≡ set_by raw.readable_paths p.readable_paths_specified

abbrev pub Trusted : SecurityPolicy → PolicyLayer → SecurityPolicy → Type 0
Trusted p raw p' =
    (trusted : List Text) × (narrow_list Field.trusted_servers p.trusted_mcp_servers
        raw.trusted_servers
      ≡ ok trusted)
    × (p'.trusted_mcp_servers ≡ difference trusted p'.denied_mcp_servers)

pub apply_overlay-Applied :
    (p : SecurityPolicy) (raw : PolicyLayer) {p' : SecurityPolicy}
    → apply_overlay p raw ≡ ok p'
    → Applied p raw p' × Trusted p raw p'
unfolding apply_overlay
apply_overlay-Applied p raw {p'} h =
    let (a, ea, h) =
      >>=-eq-ok (narrow_paths Field.writable_paths p.writable_paths raw.writable_paths) _ h in
    let (b, eb, h) =
      >>=-eq-ok (narrow_paths Field.readable_paths p.readable_paths raw.readable_paths) _ h in
    let (c, ec, h) =
      >>=-eq-ok (narrow_list Field.allowed_commands p.allowed_commands raw.allowed_commands) _ h in
    let (d, ed, h) =
      >>=-eq-ok (narrow_list Field.auto_allow p.auto_allow_patterns raw.auto_allow) _ h in
    let (s, es, h) = >>=-eq-ok (narrow_seconds p.max_exec_seconds raw.max_execution_secs) _ h in
    let (n, en, h) = >>=-eq-ok (narrow_scan p.scan_output raw.scan_output) _ h in
    let (t, et, h) =
      >>=-eq-ok (narrow_list Field.trusted_servers p.trusted_mcp_servers raw.trusted_servers) _ h in
    let (u, eu, h) =
      >>=-eq-ok (narrow_list Field.insecure_hosts p.allowed_insecure_mcp_hosts raw.insecure_hosts) _
        h in
    let (m, em, h) =
      >>=-eq-ok (narrow_permission p.mcp_default_permission raw.default_permission) _ h in
    let (k, ek, h) = >>=-eq-ok (narrow_connections p.max_mcp_connections raw.max_connections) _ h in
    (ground (arith, ea, eb, ec, ed, es, en, eu, em, ek, h), (t, et, ground (arith, h)))

narrow_seconds-bounds :
    (current : ℤ) (o : Option ℤ) {r : ℤ}
    → narrow_seconds current o ≡ ok r
    → pos 0 <ℤ current
    → (pos 0 <ℤ r) × (r ≤ℤ current)
unfolding narrow_seconds
narrow_seconds-bounds current none h k = ground arith
narrow_seconds-bounds current (some n) h k = ground arith

narrow_connections-bounds :
    (current : ℤ) (o : Option ℤ) {r : ℤ}
    → narrow_connections current o ≡ ok r
    → pos 0 <ℤ current
    → (pos 0 <ℤ r) × (r ≤ℤ current)
unfolding narrow_connections
narrow_connections-bounds current none h k = ground arith
narrow_connections-bounds current (some n) h k = ground arith

narrow_permission-strength :
    (current : McpPermission) (o : Option McpPermission) {r : McpPermission}
    → narrow_permission current o ≡ ok r
    → permission_strength current ≤ permission_strength r
unfolding narrow_permission
narrow_permission-strength current none h = ground arith
narrow_permission-strength current (some n) h = ground arith

union-grows : (xs ys : List Text) {zs : List Text} → zs ≡ union xs ys → IncludedIn xs zs
union-grows xs ys e t h = rw e (union-left xs ys t h)

set_by-keeps : (o : Option (List Text)) {b r : Bool} → b ≡ true → r ≡ set_by o b → r ≡ true
set_by-keeps none h e = cc (h, e)
set_by-keeps (some xs) h e = e

apply_overlay-IsStricter :
    (p : SecurityPolicy) (raw : PolicyLayer) {p' : SecurityPolicy}
    → apply_overlay p raw ≡ ok p'
    → IsStricter p p'
unfolding narrow_scan
apply_overlay-IsStricter p raw {p'} h =
    let (a, (trusted, e, kept)) = apply_overlay-Applied p raw h in
    record {
      writable = narrow_paths-CoveredBy _ p.writable_paths raw.writable_paths a.writable;
      readable = narrow_paths-CoveredBy _ p.readable_paths raw.readable_paths a.readable;
      denied_paths = union-grows _ _ a.denied_paths;
      commands = narrow_list-IncludedIn _ p.allowed_commands raw.allowed_commands a.commands;
      runs = λ c k.
          narrowed-shell_command_allowed p p' raw.allowed_commands c a.commands a.commands_set k;
      commands_set = λ k. set_by-keeps raw.allowed_commands k a.commands_set;
      writable_set = λ k. set_by-keeps raw.writable_paths k a.writable_set;
      readable_set = λ k. set_by-keeps raw.readable_paths k a.readable_set;
      auto_allow = narrow_list-IncludedIn _ p.auto_allow_patterns raw.auto_allow a.auto;
      denied_patterns = union-grows _ _ a.denied_patterns;
      confirm = union-grows _ _ a.confirm;
      never_allow = union-grows _ _ a.never_allow;
      secrets = union-grows _ _ a.secrets;
      denied_servers = union-grows _ _ a.denied_servers;
      trusted_servers = λ t k.
          narrow_list-IncludedIn _ p.trusted_mcp_servers raw.trusted_servers e t
            (ground (arith, kept, contains-difference trusted p'.denied_mcp_servers t));
      hosts = narrow_list-IncludedIn _ p.allowed_insecure_mcp_hosts raw.insecure_hosts a.hosts;
      seconds = narrow_seconds-bounds p.max_exec_seconds raw.max_execution_secs a.seconds;
      scan = λ on. ground (arith, a.scan);
      permission =
          narrow_permission-strength p.mcp_default_permission raw.default_permission a.permission;
      connections =
          narrow_connections-bounds p.max_mcp_connections raw.max_connections a.connections;
    }

digests-shell_command_allowed :
    (p : SecurityPolicy) (digests : List Text) (command : Text)
    → shell_command_allowed (record p { trusted_hook_digests = digests }) command ≡ true
    → shell_command_allowed p command ≡ true
unfolding shell_command_allowed
digests-shell_command_allowed p digests command h = h

-- The trust of hooks is no part of the order.
digests-IsStricter :
    (p : SecurityPolicy) (digests : List Text)
    → IsStricter p (record p { trusted_hook_digests = digests })
digests-IsStricter p digests = record {
  writable = CoveredBy-refl p.writable_paths;
  readable = CoveredBy-refl p.readable_paths;
  denied_paths = λ t k. k;
  commands = λ t k. k;
  runs = λ c k. digests-shell_command_allowed p digests c k;
  commands_set = λ k. k;
  writable_set = λ k. k;
  readable_set = λ k. k;
  auto_allow = λ t k. k;
  denied_patterns = λ t k. k;
  confirm = λ t k. k;
  never_allow = λ t k. k;
  secrets = λ t k. k;
  denied_servers = λ t k. k;
  trusted_servers = λ t k. k;
  hosts = λ t k. k;
  seconds = λ k. (k, omega arith);
  scan = λ k. k;
  permission = omega arith;
  connections = λ k. (k, omega arith);
}

IsStricter-refl : (p : SecurityPolicy) → IsStricter p p
IsStricter-refl p = digests-IsStricter p p.trusted_hook_digests

pub IsStricter-trans : (p q r : SecurityPolicy) → IsStricter p q → IsStricter q r → IsStricter p r
IsStricter-trans p q r a b = record {
  writable =
      CoveredBy-trans r.writable_paths q.writable_paths p.writable_paths b.writable a.writable;
  readable =
      CoveredBy-trans r.readable_paths q.readable_paths p.readable_paths b.readable a.readable;
  denied_paths = λ t k. b.denied_paths t (a.denied_paths t k);
  commands = λ t k. a.commands t (b.commands t k);
  runs = λ c k. a.runs c (b.runs c k);
  commands_set = λ k. b.commands_set (a.commands_set k);
  writable_set = λ k. b.writable_set (a.writable_set k);
  readable_set = λ k. b.readable_set (a.readable_set k);
  auto_allow = λ t k. a.auto_allow t (b.auto_allow t k);
  denied_patterns = λ t k. b.denied_patterns t (a.denied_patterns t k);
  confirm = λ t k. b.confirm t (a.confirm t k);
  never_allow = λ t k. b.never_allow t (a.never_allow t k);
  secrets = λ t k. b.secrets t (a.secrets t k);
  denied_servers = λ t k. b.denied_servers t (a.denied_servers t k);
  trusted_servers = λ t k. a.trusted_servers t (b.trusted_servers t k);
  hosts = λ t k. a.hosts t (b.hosts t k);
  seconds = λ k. let s = a.seconds k in let s' = b.seconds s.0 in (s'.0, omega (arith, s, s'));
  scan = λ k. b.scan (a.scan k);
  permission = omega (arith, a.permission, b.permission);
  connections =
      λ k. let s = a.connections k in let s' = b.connections s.0 in (s'.0, omega (arith, s, s'));
}

pub trust_digests-IsStricter :
    (source : Text) (o : Option (List Text)) (p : SecurityPolicy) {p' : SecurityPolicy}
    → trust_digests source o p ≡ ok p'
    → IsStricter p p'
unfolding trust_digests
trust_digests-IsStricter source none p {p'} h =
    subst (IsStricter p) (ok-injective h) (IsStricter-refl p)
trust_digests-IsStricter source (some digests) p {p'} h =
    let (done, q, e) =
      >>=-eq-ok (refuse (not (text_eq source (codes "user"))) digests_not_user) _ h in
    subst (IsStricter p) (ok-injective e)
      (digests-IsStricter p (union p.trusted_hook_digests digests))

module _ (compiles : Text → Bool) where
  overlay_round-IsStricter :
      (p : SecurityPolicy) (overlay : Overlay) {p' : SecurityPolicy}
      → overlay_round compiles p overlay ≡ ok p'
      → IsStricter p p'
  unfolding overlay_round
  overlay_round-IsStricter p overlay {p'} h = elim (Option-cases overlay.layer) [
    | inl missing ↦ absurd (ground arith)
    | inr (raw, given) ↦
        let (u, checked, h') = >>=-eq-ok (validate_raw_patterns compiles raw) _ (rw given at h) in
        let (q, applied, trusted) = >>=-eq-ok (apply_overlay p raw) _ h' in
        IsStricter-trans p q p' (apply_overlay-IsStricter p raw applied)
          (trust_digests-IsStricter overlay.source raw.trusted_digests q trusted)
  ]

  pub overlay_rounds-IsStricter :
      (p : SecurityPolicy) (overlays : List Overlay) {p' : SecurityPolicy}
      → overlay_rounds compiles p overlays ≡ ok p'
      → IsStricter p p'
  unfolding overlay_rounds
  overlay_rounds-IsStricter p [] h = subst (IsStricter p) (ok-injective h) (IsStricter-refl p)
  overlay_rounds-IsStricter p (overlay ∷ overlays) {p'} h =
      let (q, first, rest) = >>=-eq-ok (overlay_round compiles p overlay) _ h in
      IsStricter-trans p q p' (overlay_round-IsStricter p overlay first)
        (overlay_rounds-IsStricter q overlays rest)

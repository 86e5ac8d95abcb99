-- ===== src/Security/Resolve.antt =====
-- What a policy that `ResolvePolicy` gives owes to its floor and to each layer.
use mathlib.Core.Path.{subst}
use chronos_code.Base.{
  Text, codes, text_eq, has_text, all, ◌≤◌, true, false, Bool, not, List, [], ◌∷◌, ◌++◌, Option,
  none, some, ok, >>=-eq-ok, Option-cases, inl, inr, ◌≡◌, sym, ◌∙◌, arith,
}
use chronos_code.Base.Int.{ℤ, pos, ◌≤ℤ◌, ◌<ℤ◌}
use chronos_code.Security.Rules.{
  McpPermission, PolicyLayer, SecurityPolicy, Field, contains, union, permission_strength,
}
use chronos_code.Security.Overlay.{
  Overlay, narrow_paths, narrow_list, narrow_seconds, narrow_scan, narrow_permission,
  narrow_connections, apply_overlay, trust_digests, validate_raw_patterns, overlay_round,
  overlay_rounds, floor_policy, compile, resolve_policy, set_by,
}
use chronos_code.Security.Command.{shell_command_allowed, first_shell_command}
use chronos_code.Security.Allowed.{listed-shell_command_allowed}
use chronos_code.Security.Sets.{
  IncludedIn, CoveredBy, union-right, contains-difference, CoveredBy-refl, CoveredBy-trans,
}
use chronos_code.Security.Ratchet.{
  IsStricter, apply_overlay-Applied, trust_digests-IsStricter, overlay_rounds-IsStricter,
}

-- The policy denies what the layer denies, and allows no more than it where the layer limits.
pub record Obeys (raw : PolicyLayer) (p : SecurityPolicy) : Type 0 where
  pub writable : (xs : List Text) → raw.writable_paths ≡ some xs → CoveredBy p.writable_paths xs
  pub readable : (xs : List Text) → raw.readable_paths ≡ some xs → CoveredBy p.readable_paths xs
  pub denied_paths : IncludedIn raw.denied_paths p.denied_paths
  pub commands :
      (xs : List Text) → raw.allowed_commands ≡ some xs → IncludedIn p.allowed_commands xs
  pub runs :
      (xs : List Text)
      → raw.allowed_commands ≡ some xs
      → (command : Text) → shell_command_allowed p command ≡ true
      → has_text (first_shell_command command) xs ≡ true
  pub commands_set :
      (xs : List Text) → raw.allowed_commands ≡ some xs → p.allowed_commands_set ≡ true
  pub writable_set :
      (xs : List Text) → raw.writable_paths ≡ some xs → p.writable_paths_specified ≡ true
  pub readable_set :
      (xs : List Text) → raw.readable_paths ≡ some xs → p.readable_paths_specified ≡ true
  pub auto_allow : (xs : List Text) → raw.auto_allow ≡ some xs → IncludedIn p.auto_allow_patterns xs
  pub denied_patterns : IncludedIn raw.denied_patterns p.denied_patterns
  pub confirm : IncludedIn raw.confirm p.confirm_patterns
  pub never_allow : IncludedIn raw.never_allow p.never_allow_patterns
  pub secrets : IncludedIn raw.secret_patterns p.secret_patterns
  pub denied_servers : IncludedIn raw.denied_servers p.denied_mcp_servers
  pub trusted_servers :
      (xs : List Text) → raw.trusted_servers ≡ some xs → IncludedIn p.trusted_mcp_servers xs
  pub distrusted :
      (t : Text) → contains raw.denied_servers t ≡ true → contains p.trusted_mcp_servers t ≡ false
  pub hosts :
      (xs : List Text) → raw.insecure_hosts ≡ some xs → IncludedIn p.allowed_insecure_mcp_hosts xs
  pub seconds :
      (n : ℤ)
      → raw.max_execution_secs ≡ some n
      → (pos 0 <ℤ p.max_exec_seconds) × (p.max_exec_seconds ≤ℤ n)
  pub scan : raw.scan_output ≡ some true → p.scan_output ≡ true
  pub permission :
      (q : McpPermission)
      → raw.default_permission ≡ some q
      → permission_strength q ≤ permission_strength p.mcp_default_permission
  pub connections :
      (n : ℤ)
      → raw.max_connections ≡ some n
      → (pos 0 <ℤ p.max_mcp_connections) × (p.max_mcp_connections ≤ℤ n)

given_list :
    (f : Field) (current : List Text) (o : Option (List Text)) (xs : List Text) {r : List Text}
    → narrow_list f current o ≡ ok r
    → o ≡ some xs
    → r ≡ xs
unfolding narrow_list
given_list f current o xs h g = ground arith

given_flag :
    (o : Option (List Text)) (xs : List Text) (b : Bool) {r : Bool}
    → o ≡ some xs
    → r ≡ set_by o b
    → r ≡ true
given_flag none xs b g e = absurd cc
given_flag (some ys) xs b g e = e

given_paths :
    (f : Field) (current : List Text) (o : Option (List Text)) (xs : List Text) {r : List Text}
    → narrow_paths f current o ≡ ok r
    → o ≡ some xs
    → r ≡ xs
unfolding narrow_paths
given_paths f current o xs h g = ground arith

union-adds : (xs ys : List Text) {zs : List Text} → zs ≡ union xs ys → IncludedIn ys zs
union-adds xs ys e t h = rw e (union-right xs ys t h)

apply_overlay-Obeys :
    (p : SecurityPolicy) (raw : PolicyLayer) {p' : SecurityPolicy}
    → apply_overlay p raw ≡ ok p'
    → Obeys raw p'
unfolding narrow_seconds narrow_scan narrow_permission narrow_connections
apply_overlay-Obeys p raw {p'} h =
    let (a, (trusted, e, kept)) = apply_overlay-Applied p raw h in
    record {
      writable = λ xs g.
          subst (λ ys. CoveredBy ys xs) (sym (given_paths _ _ _ xs a.writable g))
            (CoveredBy-refl xs);
      readable = λ xs g.
          subst (λ ys. CoveredBy ys xs) (sym (given_paths _ _ _ xs a.readable g))
            (CoveredBy-refl xs);
      denied_paths = union-adds _ _ a.denied_paths;
      commands = λ xs g t k. ground (arith, given_list _ _ _ xs a.commands g);
      runs = λ xs g c k.
          listed-shell_command_allowed p' xs c (given_list _ _ _ xs a.commands g)
            (given_flag raw.allowed_commands xs _ g a.commands_set) k;
      commands_set = λ xs g. given_flag raw.allowed_commands xs _ g a.commands_set;
      writable_set = λ xs g. given_flag raw.writable_paths xs _ g a.writable_set;
      readable_set = λ xs g. given_flag raw.readable_paths xs _ g a.readable_set;
      auto_allow = λ xs g t k. ground (arith, given_list _ _ _ xs a.auto g);
      denied_patterns = union-adds _ _ a.denied_patterns;
      confirm = union-adds _ _ a.confirm;
      never_allow = union-adds _ _ a.never_allow;
      secrets = union-adds _ _ a.secrets;
      denied_servers = union-adds _ _ a.denied_servers;
      trusted_servers = λ xs g t k. ground (
        arith,
        kept,
        contains-difference trusted p'.denied_mcp_servers t,
        given_list _ _ _ xs e g,
      );
      distrusted = λ t k. ground (
        arith,
        kept,
        contains-difference trusted p'.denied_mcp_servers t,
        union-adds p.denied_mcp_servers raw.denied_servers a.denied_servers t k,
      );
      hosts = λ xs g t k. ground (arith, given_list _ _ _ xs a.hosts g);
      seconds = λ n g. ground (arith, a.seconds);
      scan = λ g. ground (arith, a.scan);
      permission = λ q g. ground (arith, a.permission);
      connections = λ n g. ground (arith, a.connections);
    }

Obeys-IsStricter :
    (raw : PolicyLayer) (p q : SecurityPolicy) → Obeys raw p → IsStricter p q → Obeys raw q
Obeys-IsStricter raw p q o s = record {
  writable =
      λ xs g. CoveredBy-trans q.writable_paths p.writable_paths xs s.writable (o.writable xs g);
  readable =
      λ xs g. CoveredBy-trans q.readable_paths p.readable_paths xs s.readable (o.readable xs g);
  denied_paths = λ t k. s.denied_paths t (o.denied_paths t k);
  commands = λ xs g t k. o.commands xs g t (s.commands t k);
  runs = λ xs g c k. o.runs xs g c (s.runs c k);
  commands_set = λ xs g. s.commands_set (o.commands_set xs g);
  writable_set = λ xs g. s.writable_set (o.writable_set xs g);
  readable_set = λ xs g. s.readable_set (o.readable_set xs g);
  auto_allow = λ xs g t k. o.auto_allow xs g t (s.auto_allow t k);
  denied_patterns = λ t k. s.denied_patterns t (o.denied_patterns t k);
  confirm = λ t k. s.confirm t (o.confirm t k);
  never_allow = λ t k. s.never_allow t (o.never_allow t k);
  secrets = λ t k. s.secrets t (o.secrets t k);
  denied_servers = λ t k. s.denied_servers t (o.denied_servers t k);
  trusted_servers = λ xs g t k. o.trusted_servers xs g t (s.trusted_servers t k);
  distrusted = λ t k. ground (arith, o.distrusted t k, s.trusted_servers t);
  hosts = λ xs g t k. o.hosts xs g t (s.hosts t k);
  seconds = λ n g. let b = o.seconds n g in omega (arith, b, s.seconds b.0);
  scan = λ g. s.scan (o.scan g);
  permission = λ r g. omega (arith, o.permission r g, s.permission);
  connections = λ n g. let b = o.connections n g in omega (arith, b, s.connections b.0);
}

module _ (compiles : Text → Bool) where
  overlay_round-Obeys :
      (p : SecurityPolicy) (overlay : Overlay) (raw : PolicyLayer) {p' : SecurityPolicy}
      → overlay.layer ≡ some raw
      → overlay_round compiles p overlay ≡ ok p'
      → Obeys raw p'
  unfolding overlay_round
  overlay_round-Obeys p overlay raw {p'} given h =
      let (u, checked, h') = >>=-eq-ok (validate_raw_patterns compiles raw) _ (rw given at h) in
      let (q, applied, trusted) = >>=-eq-ok (apply_overlay p raw) _ h' in
      Obeys-IsStricter raw q p' (apply_overlay-Obeys p raw applied)
        (trust_digests-IsStricter overlay.source raw.trusted_digests q trusted)

  overlay_rounds-Obeys :
      (p : SecurityPolicy) (before : List Overlay) (overlay : Overlay) (after : List Overlay)
      (raw : PolicyLayer) {p' : SecurityPolicy}
      → overlay.layer ≡ some raw
      → overlay_rounds compiles p (before ++ overlay ∷ after) ≡ ok p'
      → Obeys raw p'
  unfolding overlay_rounds
  overlay_rounds-Obeys p [] overlay after raw {p'} given h =
      let (q, first, rest) = >>=-eq-ok (overlay_round compiles p overlay) _ h in
      Obeys-IsStricter raw q p' (overlay_round-Obeys p overlay raw given first)
        (overlay_rounds-IsStricter compiles q after rest)
  overlay_rounds-Obeys p (o ∷ before) overlay after raw given h =
      let (q, first, rest) = >>=-eq-ok (overlay_round compiles p o) _ h in
      overlay_rounds-Obeys q before overlay after raw given rest

  -- A resolved policy comes of a floor that was accepted, and of the rounds over the layers.
  resolve_policy-rounds :
      (floor : Option PolicyLayer) (overlays : List Overlay) {p : SecurityPolicy}
      → resolve_policy compiles floor overlays ≡ ok p
      → (f : SecurityPolicy) × (floor_policy compiles floor ≡ ok f)
        × (overlay_rounds compiles f overlays ≡ ok p)
  unfolding resolve_policy
  resolve_policy-rounds floor overlays h =
      let (f, first, rest) = >>=-eq-ok (floor_policy compiles floor) _ h in
      let (q, rounds, last) = >>=-eq-ok (overlay_rounds compiles f overlays) _ rest in
      let (u, compiled, same) = >>=-eq-ok (compile compiles q) _ last in (f, first, rounds ∙ same)

  -- Layers never relax the embedded floor. When `ResolvePolicy` gives a policy, its floor was
  -- accepted, and against the floor the policy denies and confirms at least as much (paths, command
  -- patterns, secrets, MCP servers), allows and trusts no more (commands by what
  -- shellCommandAllowed answers, silent approvals, trusted servers, insecure hosts, and paths by
  -- their directories), remembers that a list of commands or paths was given even when it is empty,
  -- keeps the limits on time and connections that are set, keeps the scan of the output, and has no
  -- weaker MCP permission.
  pub resolve_policy-IsStricter :
      (floor : Option PolicyLayer) (overlays : List Overlay) {p : SecurityPolicy}
      → resolve_policy compiles floor overlays ≡ ok p
      → (f : SecurityPolicy) × (floor_policy compiles floor ≡ ok f) × IsStricter f p
  resolve_policy-IsStricter floor overlays h =
      let (f, first, rounds) = resolve_policy-rounds floor overlays h in
      (f, first, overlay_rounds-IsStricter compiles f overlays rounds)

  -- Each layer binds the policy that `ResolvePolicy` gives, wherever it stands among the layers: what
  -- the layer denies is denied and, of the servers, not trusted; what it lists as allowed, silent,
  -- trusted, insecure, readable or writable is not exceeded, and that it gave a list of commands or
  -- paths is remembered, so that shellCommandAllowed lets through no command outside its list, also
  -- when the list is empty; and its limits, its scan and its MCP permission hold or are tightened.
  pub resolve_policy-Obeys :
      (floor : Option PolicyLayer) (before : List Overlay) (overlay : Overlay)
      (after : List Overlay) (raw : PolicyLayer) {p : SecurityPolicy}
      → overlay.layer ≡ some raw
      → resolve_policy compiles floor (before ++ overlay ∷ after) ≡ ok p
      → Obeys raw p
  resolve_policy-Obeys floor before overlay after raw given h =
      let (f, first, rounds) = resolve_policy-rounds floor (before ++ overlay ∷ after) h in
      overlay_rounds-Obeys f before overlay after raw given rounds

  overlay_round-digests :
      (p : SecurityPolicy) (overlay : Overlay) {p' : SecurityPolicy}
      → text_eq overlay.source (codes "user") ≡ false
      → overlay_round compiles p overlay ≡ ok p'
      → p'.trusted_hook_digests ≡ p.trusted_hook_digests
  unfolding overlay_round trust_digests
  overlay_round-digests p overlay {p'} other h = elim (Option-cases overlay.layer) [
    | inl missing ↦ absurd (ground arith)
    | inr (raw, given) ↦
        let (u, checked, h') = >>=-eq-ok (validate_raw_patterns compiles raw) _ (rw given at h) in
        let (q, applied, trusted) = >>=-eq-ok (apply_overlay p raw) _ h' in
        ground (arith, trusted, (apply_overlay-Applied p raw applied).0.digests)
  ]

  overlay_rounds-digests :
      (p : SecurityPolicy) (overlays : List Overlay) {p' : SecurityPolicy}
      → all (λ o. not (text_eq o.source (codes "user"))) overlays ≡ true
      → overlay_rounds compiles p overlays ≡ ok p'
      → p'.trusted_hook_digests ≡ p.trusted_hook_digests
  unfolding overlay_rounds
  overlay_rounds-digests p [] other h = ground arith
  overlay_rounds-digests p (overlay ∷ overlays) other h =
      let (q, first, rest) = >>=-eq-ok (overlay_round compiles p overlay) _ h in
      overlay_rounds-digests q overlays (ground arith) rest
      ∙ overlay_round-digests p overlay (ground arith) first

  -- Only the user's own policy adds trust in hooks: where no layer is the user's, the policy that
  -- `ResolvePolicy` gives trusts the digests of its floor and no other.
  pub resolve_policy-digests :
      (floor : Option PolicyLayer) (overlays : List Overlay) {p : SecurityPolicy}
      → all (λ o. not (text_eq o.source (codes "user"))) overlays ≡ true
      → resolve_policy compiles floor overlays ≡ ok p
      → (f : SecurityPolicy) × (floor_policy compiles floor ≡ ok f)
        × (p.trusted_hook_digests ≡ f.trusted_hook_digests)
  resolve_policy-digests floor overlays other h =
      let (f, first, rounds) = resolve_policy-rounds floor overlays h in
      (f, first, overlay_rounds-digests f overlays other rounds)

-- ===== src/Security/Mcp/Trust.antt =====
-- What a server may do after a history of grants.
use chronos_code.Base.{
  Text, text_eq, text_eq_iff, has_text, any, Bool, ◌&&◌, ◌||◌, not, List, [], ◌∷◌, if◌then◌else◌,
  Option, some, ◌≡◌, refl, ap, arith, Bool-cases, inl, inr, ◌∙◌,
}
use chronos_code.Security.Rules.{McpPermission, SecurityPolicy, contains}
use chronos_code.Security.Mcp.{
  McpServerIdentity, McpTrust, add_text, or_approval, digest, trust_configured, trust_caller,
  decide_server, allow_session,
}

-- A policy that has granted nothing.
abbrev pub fresh : SecurityPolicy → McpTrust
fresh policy = record {
  policy = policy;
  trusted_identities = [];
  session_identities = [];
  caller_identities = [];
}

-- The calls that grant trust.
pub data McpCall : Type 0 where
  configured caller session : McpServerIdentity → McpCall

has_text-add_text :
    (t u : Text) (ts : List Text) → has_text t (add_text u ts) ≡ (text_eq t u || has_text t ts)
has_text-add_text t u ts = ground (arith, text_eq_iff t u)

-- Whether the policy lets the call grant trust, and to this digest.
abbrev pub grants : (Text → Text) → SecurityPolicy → Text → McpCall → Bool
grants hash policy d (configured i) =
    not (contains policy.denied_mcp_servers i.name)
    && contains policy.trusted_mcp_servers i.name
    && text_eq d (digest hash i)
grants hash policy d (caller i) =
    not (contains policy.denied_mcp_servers i.name) && text_eq d (digest hash i)
grants hash policy d (session i) =
    not (contains policy.denied_mcp_servers i.name) && text_eq d (digest hash i)

module _ (hash : Text → Text) where
  abbrev pub mcp_call : Option McpTrust → McpCall → Option McpTrust
  mcp_call p (configured i) = trust_configured hash p i
  mcp_call p (caller i) = trust_caller hash p i
  mcp_call p (session i) = (allow_session hash p i).0

  abbrev pub mcp_calls : Option McpTrust → List McpCall → Option McpTrust
  mcp_calls p [] = p
  mcp_calls p (c ∷ cs) = mcp_calls (mcp_call p c) cs

  abbrev granted : McpTrust → Text → Bool
  granted p d = has_text d p.trusted_identities || has_text d p.session_identities

  mcp_call-granted :
      (p : McpTrust) (c : McpCall)
      → (q : McpTrust) × (mcp_call (some p) c ≡ some q)
        × (q.policy ≡ p.policy)
        × ((d : Text) → granted q d ≡ (granted p d || grants hash p.policy d c))
  unfolding trust_configured trust_caller allow_session
  mcp_call-granted p (configured i) =
      elim (Bool-cases (
        contains p.policy.denied_mcp_servers i.name
        || not (contains p.policy.trusted_mcp_servers i.name))) [
          | inl refused ↦ (p, ground arith, refl, λ d. ground arith)
          | inr open_to ↦ (
            record p { trusted_identities = add_text (digest hash i) p.trusted_identities },
            ground arith,
            refl,
            λ d. ground (
              arith,
              text_eq_iff d (digest hash i),
              has_text-add_text d (digest hash i) p.trusted_identities,
            ),
          )
        ]
  mcp_call-granted p (caller i) = elim (Bool-cases (contains p.policy.denied_mcp_servers i.name)) [
    | inl denied ↦ (p, ground arith, refl, λ d. ground arith)
    | inr open_to ↦ (
      record p {
        trusted_identities = add_text (digest hash i) p.trusted_identities;
        caller_identities = add_text (digest hash i) p.caller_identities;
      },
      ground arith,
      refl,
      λ d. ground (arith, has_text-add_text d (digest hash i) p.trusted_identities),
    )
  ]
  mcp_call-granted p (session i) = elim (Bool-cases (contains p.policy.denied_mcp_servers i.name)) [
    | inl refused ↦ (p, ground arith, refl, λ d. ground arith)
    | inr open_to ↦ (
      record p { session_identities = add_text (digest hash i) p.session_identities },
      ground arith,
      refl,
      λ d. ground (arith, has_text-add_text d (digest hash i) p.session_identities),
    )
  ]

  mcp_calls-granted :
      (p : McpTrust) (cs : List McpCall)
      → (q : McpTrust) × (mcp_calls (some p) cs ≡ some q)
        × (q.policy ≡ p.policy)
        × ((d : Text) → granted q d ≡ (granted p d || any (grants hash p.policy d) cs))
  mcp_calls-granted p [] = (p, refl, refl, λ d. ground arith)
  mcp_calls-granted p (c ∷ cs) =
      let (q, step, same, first) = mcp_call-granted p c in
      let (r, steps, kept, rest) = mcp_calls-granted q cs in
      (
        r,
        rw step steps,
        kept ∙ same,
        λ d.
            ground
              (arith, rest d, first d, ap (λ (x : SecurityPolicy). any (grants hash x d) cs) same),
      )

  -- What `DecideMCPServerIdentity` answers on a policy that had granted nothing, after any calls that
  -- grant trust: a server that the policy denies is denied, whatever was granted; one whose exact
  -- digest a call was let to trust is allowed; every other gets the permission by default, which is
  -- to ask for approval where none is set.
  pub decide_server-permission :
      (policy : SecurityPolicy) (cs : List McpCall) (i : McpServerIdentity)
      → (decide_server hash (mcp_calls (some (fresh policy)) cs) i).permission ≡ (
          if contains policy.denied_mcp_servers i.name
          then McpPermission.deny
          else if any (grants hash policy (digest hash i)) cs
          then McpPermission.allow
          else or_approval policy.mcp_default_permission)
  unfolding decide_server
  decide_server-permission policy cs i =
      let (q, steps, same, all_granted) = mcp_calls-granted (fresh policy) cs in
      rw (steps, decide_server) (ground (arith, same, all_granted (digest hash i)))

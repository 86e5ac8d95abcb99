-- ===== src/Security/Mcp.antt =====
-- The trust in MCP servers: internal/security/policy.go. The hash is a parameter; a set of digests is
-- a list. A nil policy is `none`.
pub mod Identity
pub mod Trust
use chronos_code.Base.{
  Text, codes, text_eq, has_text, ℕ, ◌/◌, ◌%◌, ◌^◌, Bool, true, false, ◌&&◌, ◌||◌, not, List, [],
  ◌∷◌, ◌++◌, length, if◌then◌else◌, Option, none, some,
}
use chronos_code.Security.Rules.{McpPermission, SecurityPolicy, contains}

pub record McpServerIdentity : Type 0 where
  pub name : Text
  pub origin : Text
  pub config_digest : Text
  pub transport : Text
  pub command : Text
  pub args : List Text
  pub url : Text

-- `binary.BigEndian.PutUint64`.
unfoldable pub write_size : ℕ → Text
write_size n =
    (n / 2 ^ 56 % 256)
    ∷ (n / 2 ^ 48 % 256)
    ∷ (n / 2 ^ 40 % 256)
    ∷ (n / 2 ^ 32 % 256)
    ∷ (n / 2 ^ 24 % 256)
    ∷ (n / 2 ^ 16 % 256)
    ∷ (n / 2 ^ 8 % 256)
    ∷ (n % 256)
    ∷ []

unfoldable pub write : Text → Text
unfolding write_size
write value = write_size (length value % 2 ^ 64) ++ value

unfoldable pub write_all : List Text → Text
unfolding write
write_all [] = []
write_all (value ∷ values) = write value ++ write_all values

-- What `Digest` hashes.
unfoldable pub identity_bytes : McpServerIdentity → Text
identity_bytes i =
    write (codes "chronos-code/mcp-launch/v1")
    ++ (write i.name
        ++ (write i.origin
            ++ (write i.config_digest
                ++ (write i.transport
                    ++ (write i.command
                        ++ (write_size (length i.args % 2 ^ 64)
                            ++ (write_all i.args ++ write i.url)))))))

-- The part of the policy that the methods read and change.
pub record McpTrust : Type 0 where
  pub policy : SecurityPolicy
  pub trusted_identities : List Text
  pub session_identities : List Text
  pub caller_identities : List Text

pub data McpReason : Type 0 where
  not_configured denied trusted approved unrecognized : McpReason

pub record McpDecision : Type 0 where
  pub permission : McpPermission
  pub reason : McpReason

abbrev pub add_text : Text → List Text → List Text
add_text t ts = if has_text t ts then ts else t ∷ ts

abbrev pub or_approval : McpPermission → McpPermission
or_approval McpPermission.unset = McpPermission.require_approval
or_approval permission = permission

module _ (hash : Text → Text) where
  abbrev pub digest : McpServerIdentity → Text
  digest i = hash (identity_bytes i)

  unfoldable pub trust_configured : Option McpTrust → McpServerIdentity → Option McpTrust
  trust_configured none i = none
  trust_configured (some p) i =
      if contains p.policy.denied_mcp_servers i.name
        || not (contains p.policy.trusted_mcp_servers i.name)
      then some p
      else some (record p { trusted_identities = add_text (digest i) p.trusted_identities })

  unfoldable pub trust_caller : Option McpTrust → McpServerIdentity → Option McpTrust
  trust_caller none i = none
  trust_caller (some p) i =
      if contains p.policy.denied_mcp_servers i.name
      then some p
      else some (record p {
        trusted_identities = add_text (digest i) p.trusted_identities;
        caller_identities = add_text (digest i) p.caller_identities;
      })

  unfoldable pub caller_supplied : Option McpTrust → McpServerIdentity → Bool
  caller_supplied none i = false
  caller_supplied (some p) i = has_text (digest i) p.caller_identities

  unfoldable pub decide_server : Option McpTrust → McpServerIdentity → McpDecision
  decide_server none i = record {
    permission = McpPermission.require_approval;
    reason = not_configured;
  }
  decide_server (some p) i =
      if contains p.policy.denied_mcp_servers i.name
      then record { permission = McpPermission.deny; reason = denied }
      else if has_text (digest i) p.trusted_identities
      then record { permission = McpPermission.allow; reason = trusted }
      else if has_text (digest i) p.session_identities
      then record { permission = McpPermission.allow; reason = approved }
      else record {
        permission = or_approval p.policy.mcp_default_permission;
        reason = unrecognized;
      }

  -- With whether it succeeded.
  unfoldable pub allow_session : Option McpTrust → McpServerIdentity → Option McpTrust × Bool
  allow_session none i = (none, false)
  allow_session (some p) i =
      if contains p.policy.denied_mcp_servers i.name
      then (some p, false)
      else (some (record p { session_identities = add_text (digest i) p.session_identities }), true)

-- ===== src/Policy/Obligation.antt =====
-- Obligations, their matching against events, and the overlap of paths:
-- internal/verification/policy.go.
use chronos_code.Base.{
  Text, codes, text_eq, has_text, has_prefix, trim_prefix, trim_suffix, is_empty, any, Bool, true,
  false, ◌&&◌, ◌||◌, not, List, [], ◌∷◌, ◌++◌, if◌then◌else◌,
}
use chronos_code.Ledger.Event.{Event, CommandClass, class_eq}

pub data Mode : Type 0 where
  report enforce : Mode
  other : Text → Mode

pub data Kind : Type 0 where
  build diagnostics test diff quiescence : Kind
  other : Text → Kind

pub data Status : Type 0 where
  pending satisfied failed cancelled stale : Status

pub record Obligation : Type 0 where
  pub id : Text
  pub kind : Kind
  pub command : Text
  pub command_class : CommandClass
  pub command_family : Text
  pub check_root : Text
  pub paths : List Text
  pub status : Status

-- The prefix that stands for the inside of a directory.
abbrev inside : Text → Text
inside directory = trim_suffix directory (codes "/") ++ codes "/"

unfoldable pub covers : List Text → Text → Bool
unfolding text_eq has_prefix trim_suffix
covers paths target =
    any (λ path. text_eq path (codes ".") || text_eq path target || has_prefix target (inside path))
      paths

unfoldable pub overlap : List Text → List Text → Bool
unfolding text_eq has_prefix trim_suffix
overlap left right =
    any
      (λ l.
        any
          (λ r.
            text_eq l (codes ".")
            || text_eq r (codes ".")
            || text_eq l r
            || has_prefix l (inside r)
            || has_prefix r (inside l))
          right)
      left

unfoldable pub matches_detail : Obligation → Text → Bool
unfolding text_eq
matches_detail o detail =
    text_eq detail o.id || (not (is_empty o.command) && text_eq detail o.command)

abbrev is_quiescence : Kind → Bool
is_quiescence Kind.quiescence = true
is_quiescence _ = false

abbrev is_test : Kind → Bool
is_test Kind.test = true
is_test _ = false

abbrev test_runners : List Text
test_runners = codes "go test" ∷ codes "pytest" ∷ codes "cargo test" ∷ codes "npm test" ∷ []

-- A test command that runs the named runner, with arguments or without, and perhaps by Python.
unfoldable pub matches_runner : Obligation → Event → Bool
unfolding text_eq has_prefix trim_prefix
matches_runner o e =
    let command = trim_prefix (trim_prefix e.command (codes "python3 -m ")) (codes "python -m ") in
    has_text o.command test_runners
    && (text_eq command o.command || has_prefix command (o.command ++ codes " "))

unfoldable pub matches : Obligation → Event → Bool
unfolding text_eq class_eq matches_runner
matches o e =
    if not (is_empty o.command_family)
    then text_eq e.command_family o.command_family
      && text_eq e.check_root o.check_root
      && class_eq e.command_class o.command_class
    else if is_quiescence o.kind
    then false
    else if not (is_empty o.command)
    then if is_test o.kind && matches_runner o e
      then true
      else text_eq e.command o.command || text_eq e.detail o.id || text_eq e.detail o.command
    else class_eq e.command_class o.command_class

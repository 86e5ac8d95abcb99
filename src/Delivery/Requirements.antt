-- ===== src/Delivery/Requirements.antt =====
-- Which requirements `validateRequirement` accepts.
use chronos_code.Base.{
  Text, text_eq, has_text, is_empty, any, any-or, any-never, all, Bool, true, false, ◌&&◌, not,
  List, [], ◌∷◌, Option, none, some, is_ok, ◌≡◌, refl, arith,
}
use chronos_code.Base.Int.{ℤ}
use chronos_code.Delivery.Domain.{
  AcceptanceCheck, Requirement, RequirementStatus, RequirementWaiver, is_some, int_eq,
  validate_checks, validate_requirement,
}

abbrev pub is_complete : AcceptanceCheck → Bool
is_complete c = not (is_empty c.id) && not (is_empty c.statement)

abbrev pub distinct_ids : List AcceptanceCheck → Bool
distinct_ids [] = true
distinct_ids (c ∷ cs) = not (any (λ x. text_eq x.id c.id) cs) && distinct_ids cs

is_ok-validate_checks :
    (seen : List Text) (cs : List AcceptanceCheck)
    → is_ok (validate_checks seen cs)
      ≡ (all is_complete cs && distinct_ids cs && not (any (λ c. has_text c.id seen) cs))
unfolding validate_checks
is_ok-validate_checks seen [] = refl
is_ok-validate_checks seen (c ∷ cs) = ground (
  arith,
  is_ok-validate_checks (c.id ∷ seen) cs,
  any-or (λ x. text_eq x.id c.id) (λ x. has_text x.id seen) cs,
)

-- The waiver is there exactly if the requirement is waived, and names its actor and its reason.
abbrev pub fits_waiver : RequirementStatus → Option RequirementWaiver → Bool
fits_waiver RequirementStatus.waived (some w) = not (is_empty w.actor) && not (is_empty w.reason)
fits_waiver RequirementStatus.waived none = false
fits_waiver RequirementStatus.accepted w = not (is_some w)
fits_waiver RequirementStatus.satisfied w = not (is_some w)
fits_waiver (RequirementStatus.other t) w = false

-- A requirement is accepted exactly if it has an ID and a statement, belongs to the goal revision,
-- has a named status, has a waiver with an actor and a reason exactly if it is waived, and its
-- checks have IDs, all different, and statements.
pub validate_requirement-accepts :
    (r : Requirement) (revision : ℤ)
    → is_ok (validate_requirement r revision) ≡ (
        not (is_empty r.id)
        && not (is_empty r.statement)
        && int_eq r.goal_revision revision
        && fits_waiver r.status r.waiver
        && all is_complete r.checks
        && distinct_ids r.checks)
unfolding validate_requirement
validate_requirement-accepts r revision =
    ground (arith, is_ok-validate_checks [] r.checks, any-never r.checks)

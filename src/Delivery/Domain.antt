-- ===== src/Delivery/Domain.antt =====
-- The delivery aggregate, its states and the validation of requirements:
-- internal/execution/delivery_domain.go. A Go string type with named values is a data type with
-- `other` for the values that have no name; a pointer is an option; a time is a number.
use chronos_code.Base.{
  Text, text_eq, has_text, is_empty, any, ℕ, ◌==◌, Bool, true, false, ◌&&◌, ◌||◌, not, List, [],
  ◌∷◌, Option, none, some, Result, ok, err, refuse, ◌>>◌, if◌then◌else◌, bool_eq,
}
use chronos_code.Base.Int.{ℤ, pos, negsuc}

pub data DeliveryState : Type 0 where
  admitted queued running checkpointing : DeliveryState
  waiting_retry waiting_decision waiting_credentials waiting_quota : DeliveryState
  paused reconciling replanning cancel_requested : DeliveryState
  succeeded failed cancelled : DeliveryState
  other : Text → DeliveryState

pub data RequirementStatus : Type 0 where
  accepted satisfied waived : RequirementStatus
  -- The empty string among them.
  other : Text → RequirementStatus

pub data DeliveryError : Type 0 where
  invalid_delivery : DeliveryError
  invalid_transition : DeliveryState → DeliveryState → DeliveryError

pub record DeliveryScope : Type 0 where
  pub tenant_id : Text
  pub repository_id : Text

pub record Goal : Type 0 where
  pub revision : ℤ
  pub statement : Text
  pub actor : Text
  pub created_at : ℕ

pub record AcceptanceCheck : Type 0 where
  pub id : Text
  pub statement : Text

pub record RequirementWaiver : Type 0 where
  pub actor : Text
  pub reason : Text
  pub created_at : ℕ

pub record Requirement : Type 0 where
  pub id : Text
  pub goal_revision : ℤ
  pub statement : Text
  pub status : RequirementStatus
  pub checks : List AcceptanceCheck
  pub waiver : Option RequirementWaiver

pub record DecisionResolution : Type 0 where
  pub actor : Text
  pub choice : Text
  pub rationale : Text
  pub resolved_at : ℕ

pub record Decision : Type 0 where
  pub id : Text
  pub question : Text
  pub options : List Text
  pub recommendation : Text
  pub consequences : Text
  pub reversible : Bool
  pub deadline : Option ℕ
  pub blocked_dependencies : List Text
  pub requested_at : ℕ
  pub resolution : Option DecisionResolution

pub record Delivery : Type 0 where
  pub scope : DeliveryScope
  pub id : Text
  pub admission_key : Text
  pub state : DeliveryState
  pub version : ℤ
  pub current_goal_revision : ℤ
  pub policy_reference : Text
  pub max_cost_microdollars : ℤ
  pub created_at : ℕ
  pub updated_at : ℕ
  pub goals : List Goal
  pub requirements : List Requirement
  pub decisions : List Decision

-- A number for each named state: `==` on the strings is `==` on these, `other` apart.
abbrev pub state_number : DeliveryState → ℕ
state_number DeliveryState.admitted = 0
state_number DeliveryState.queued = 1
state_number DeliveryState.running = 2
state_number DeliveryState.checkpointing = 3
state_number DeliveryState.waiting_retry = 4
state_number DeliveryState.waiting_decision = 5
state_number DeliveryState.waiting_credentials = 6
state_number DeliveryState.waiting_quota = 7
state_number DeliveryState.paused = 8
state_number DeliveryState.reconciling = 9
state_number DeliveryState.replanning = 10
state_number DeliveryState.cancel_requested = 11
state_number DeliveryState.succeeded = 12
state_number DeliveryState.failed = 13
state_number DeliveryState.cancelled = 14
state_number (DeliveryState.other t) = 15

abbrev pub state_name : DeliveryState → Text
state_name (DeliveryState.other t) = t
state_name _ = []

abbrev pub state_eq : DeliveryState → DeliveryState → Bool
state_eq a b = (state_number a == state_number b) && text_eq (state_name a) (state_name b)

unfoldable pub state_in : DeliveryState → List DeliveryState → Bool
state_in state allowed = any (state_eq state) allowed

unfoldable pub is_terminal_delivery_state : DeliveryState → Bool
unfolding state_in
is_terminal_delivery_state state =
    state_in state (DeliveryState.succeeded ∷ DeliveryState.failed ∷ DeliveryState.cancelled ∷ [])

-- The states after a wait or a pause.
abbrev resumed : List DeliveryState
resumed = DeliveryState.queued ∷ DeliveryState.cancel_requested ∷ DeliveryState.failed ∷ []

-- The lists of the switch of `validDeliveryTransition`.
unfoldable pub allowed_next : DeliveryState → List DeliveryState
allowed_next DeliveryState.admitted =
    DeliveryState.queued ∷ DeliveryState.paused ∷ DeliveryState.cancel_requested
    ∷ DeliveryState.failed ∷ []
allowed_next DeliveryState.queued =
    DeliveryState.running ∷ DeliveryState.paused ∷ DeliveryState.reconciling
    ∷ DeliveryState.replanning ∷ DeliveryState.waiting_retry ∷ DeliveryState.waiting_decision
    ∷ DeliveryState.waiting_credentials ∷ DeliveryState.waiting_quota
    ∷ DeliveryState.cancel_requested ∷ DeliveryState.failed ∷ []
allowed_next DeliveryState.running =
    DeliveryState.queued ∷ DeliveryState.checkpointing ∷ DeliveryState.waiting_retry
    ∷ DeliveryState.waiting_decision ∷ DeliveryState.waiting_credentials
    ∷ DeliveryState.waiting_quota ∷ DeliveryState.paused ∷ DeliveryState.reconciling
    ∷ DeliveryState.replanning ∷ DeliveryState.cancel_requested ∷ DeliveryState.succeeded
    ∷ DeliveryState.failed ∷ DeliveryState.cancelled ∷ []
allowed_next DeliveryState.checkpointing =
    DeliveryState.queued ∷ DeliveryState.reconciling ∷ DeliveryState.cancel_requested
    ∷ DeliveryState.failed ∷ []
allowed_next DeliveryState.waiting_retry = resumed
allowed_next DeliveryState.waiting_decision = resumed
allowed_next DeliveryState.waiting_credentials = resumed
allowed_next DeliveryState.waiting_quota = resumed
allowed_next DeliveryState.paused = resumed
allowed_next DeliveryState.reconciling =
    DeliveryState.queued ∷ DeliveryState.running ∷ DeliveryState.waiting_retry
    ∷ DeliveryState.waiting_decision ∷ DeliveryState.replanning ∷ DeliveryState.cancel_requested
    ∷ DeliveryState.succeeded ∷ DeliveryState.failed ∷ DeliveryState.cancelled ∷ []
allowed_next DeliveryState.replanning =
    DeliveryState.queued ∷ DeliveryState.waiting_decision ∷ DeliveryState.cancel_requested
    ∷ DeliveryState.failed ∷ []
allowed_next DeliveryState.cancel_requested =
    DeliveryState.reconciling ∷ DeliveryState.cancelled ∷ DeliveryState.failed ∷ []
allowed_next _ = []

unfoldable pub valid_delivery_transition : DeliveryState → DeliveryState → Bool
unfolding state_in is_terminal_delivery_state allowed_next text_eq
valid_delivery_transition from next =
    if state_eq from next || is_terminal_delivery_state from
    then false
    else state_in next (allowed_next from)

-- `Transition`: the delivery after it.
unfoldable pub transition : Delivery → DeliveryState → Result DeliveryError Delivery
transition d next =
    if not (valid_delivery_transition d.state next)
    then err (invalid_transition d.state next)
    else ok (record d { state = next })

unfoldable pub validate_scope : DeliveryScope → Result DeliveryError (Unit {0})
validate_scope s = refuse (is_empty s.tenant_id || is_empty s.repository_id) invalid_delivery

abbrev pub is_waived : RequirementStatus → Bool
is_waived RequirementStatus.waived = true
is_waived _ = false

-- A status with a name; the empty string has none.
abbrev pub is_named_status : RequirementStatus → Bool
is_named_status (RequirementStatus.other t) = false
is_named_status _ = true

abbrev pub is_unset : RequirementStatus → Bool
is_unset (RequirementStatus.other t) = is_empty t
is_unset _ = false

-- `==` on integers.
abbrev pub int_eq : ℤ → ℤ → Bool
int_eq (pos a) (pos b) = a == b
int_eq (negsuc a) (negsuc b) = a == b
int_eq _ _ = false

abbrev pub is_some : Option RequirementWaiver → Bool
is_some none = false
is_some (some w) = true

abbrev pub incomplete_waiver : Option RequirementWaiver → Bool
incomplete_waiver none = false
incomplete_waiver (some w) = is_empty w.actor || is_empty w.reason

-- The loop over the checks, with the IDs seen.
unfoldable pub validate_checks : List Text → List AcceptanceCheck → Result DeliveryError (Unit {0})
validate_checks seen [] = ok tt
validate_checks seen (c ∷ cs) =
    let rest = validate_checks (c.id ∷ seen) cs in
    if is_empty c.id || is_empty c.statement
    then err invalid_delivery
    else if has_text c.id seen
    then err invalid_delivery
    else rest

unfoldable pub validate_requirement : Requirement → ℤ → Result DeliveryError (Unit {0})
validate_requirement r revision = do
  refuse
      (is_empty r.id
        || is_empty r.statement
        || is_unset r.status
        || not (int_eq r.goal_revision revision))
      invalid_delivery
  refuse (not (is_named_status r.status)) invalid_delivery
  refuse (not (bool_eq (is_waived r.status) (is_some r.waiver))) invalid_delivery
  refuse (incomplete_waiver r.waiver) invalid_delivery
  validate_checks [] r.checks

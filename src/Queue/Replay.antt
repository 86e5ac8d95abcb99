-- ===== src/Queue/Replay.antt =====
-- The projection rebuilt from the events: ReplayDelivery of internal/execution/delivery_store.go.
-- The decoding of payloads, encoding/json, is a parameter.
use chronos_code.Base.{
  Text, ℕ, suc, ◌==◌, Bool, ◌&&◌, ◌||◌, not, List, [], ◌∷◌, ◌++◌, any, map, is_empty, Option, none,
  some, Result, ok, err, refuse, ◌>>=◌, ◌>>◌, if◌then◌else◌, text_eq, is_none,
}
use chronos_code.Base.Int.{ℤ, pos, add64}
use chronos_code.Delivery.Domain.{
  Delivery, DeliveryState, Goal, Requirement, RequirementStatus, RequirementWaiver, Decision,
  DecisionResolution, state_eq, valid_delivery_transition, int_eq,
}
use chronos_code.Queue.Rows.{DeliveryEvent, DeliveryEventType}
use chronos_code.Queue.Journal.{TransitionedPayload}

pub data ReplayError : Type 0 where
  invalid_delivery decode_failed : ReplayError

pub record GoalRevisedPayload : Type 0 where
  pub goal : Goal
  pub requirements : List Requirement
  pub version : ℤ

pub record RequirementUpdatedPayload : Type 0 where
  pub requirement_id : Text
  pub goal_revision : ℤ
  pub status : RequirementStatus
  pub waiver : Option RequirementWaiver
  pub version : ℤ

pub record DecisionRequestedPayload : Type 0 where
  pub decision : Decision
  pub version : ℤ

pub record DecisionResolvedPayload : Type 0 where
  pub decision_id : Text
  pub resolution : DecisionResolution
  pub version : ℤ

-- `json.Unmarshal` into each payload.
pub record Decoders : Type 0 where
  pub admitted : Text → Option Delivery
  pub transitioned : Text → Option TransitionedPayload
  pub goal_revised : Text → Option GoalRevisedPayload
  pub requirement_updated : Text → Option RequirementUpdatedPayload
  pub decision_requested : Text → Option DecisionRequestedPayload
  pub decision_resolved : Text → Option DecisionResolvedPayload

-- `var delivery Delivery`.
abbrev pub zero_delivery : Delivery
zero_delivery = record {
  scope = record { tenant_id = []; repository_id = [] };
  id = [];
  admission_key = [];
  state = DeliveryState.other [];
  version = pos 0;
  current_goal_revision = pos 0;
  policy_reference = [];
  max_cost_microdollars = pos 0;
  created_at = 0;
  updated_at = 0;
  goals = [];
  requirements = [];
  decisions = [];
}

abbrev is_next : Delivery → ℤ → Bool
is_next d version = int_eq version (add64 d.version (pos 1))

-- The result of a decoding that must not fail.
abbrev decoded {ℓ} : {A : Type ℓ} → Option A → Result ReplayError A
decoded none = err invalid_delivery
decoded (some a) = ok a

abbrev is_requirement : RequirementUpdatedPayload → Requirement → Bool
is_requirement p r = text_eq r.id p.requirement_id && int_eq r.goal_revision p.goal_revision

abbrev update_requirement : RequirementUpdatedPayload → Requirement → Requirement
update_requirement p r =
    if is_requirement p r then record r { status = p.status; waiver = p.waiver } else r

abbrev is_open_decision : DecisionResolvedPayload → Decision → Bool
is_open_decision p d = text_eq d.id p.decision_id && is_none d.resolution

abbrev resolve_decision : DecisionResolvedPayload → Decision → Decision
resolve_decision p d =
    if is_open_decision p d then record d { resolution = some p.resolution } else d

abbrev apply_transitioned : Delivery → ℕ → TransitionedPayload → Result ReplayError Delivery
apply_transitioned d at p =
    refuse
      (not (state_eq d.state p.from)
        || not (valid_delivery_transition p.from p.to)
        || not (is_next d p.version))
      invalid_delivery
    >> ok (record d { state = p.to; version = p.version; updated_at = at })

abbrev apply_goal_revised : Delivery → ℕ → GoalRevisedPayload → Result ReplayError Delivery
apply_goal_revised d at p =
    refuse
      (not (is_next d p.version)
        || not (int_eq p.goal.revision (add64 d.current_goal_revision (pos 1))))
      invalid_delivery
    >> ok (record d {
      goals = d.goals ++ p.goal ∷ [];
      requirements = d.requirements ++ p.requirements;
      current_goal_revision = p.goal.revision;
      version = p.version;
      updated_at = at;
    })

abbrev apply_requirement_updated :
    Delivery → ℕ → RequirementUpdatedPayload → Result ReplayError Delivery
apply_requirement_updated d at p =
    refuse (not (is_next d p.version) || not (any (is_requirement p) d.requirements))
      invalid_delivery
    >> ok (record d {
      requirements = map (update_requirement p) d.requirements;
      version = p.version;
      updated_at = at;
    })

abbrev apply_decision_requested :
    Delivery → ℕ → DecisionRequestedPayload → Result ReplayError Delivery
apply_decision_requested d at p =
    refuse (not (is_next d p.version)) invalid_delivery
    >> ok (record d {
      decisions = d.decisions ++ p.decision ∷ [];
      version = p.version;
      updated_at = at;
    })

abbrev apply_decision_resolved :
    Delivery → ℕ → DecisionResolvedPayload → Result ReplayError Delivery
apply_decision_resolved d at p =
    refuse (not (is_next d p.version) || not (any (is_open_decision p) d.decisions))
      invalid_delivery
    >> ok (record d {
      decisions = map (resolve_decision p) d.decisions;
      version = p.version;
      updated_at = at;
    })

module _ (decoders : Decoders) where
  abbrev apply_admitted : ℕ → Text → Result ReplayError Delivery
  apply_admitted i payload =
      if not (i == 0)
      then err invalid_delivery
      else elim (decoders.admitted payload) [ none ↦ err decode_failed | some d ↦ ok d ]

  -- One round of the loop: the switch on the event's type.
  unfoldable pub apply_event : ℕ → Delivery → DeliveryEvent → Result ReplayError Delivery
  apply_event i d e = elim e.type [
    | DeliveryEventType.admitted ↦ apply_admitted i e.payload
    | DeliveryEventType.transitioned ↦
        decoded (decoders.transitioned e.payload) >>= apply_transitioned d e.occurred_at
    | DeliveryEventType.goal_revised ↦
        decoded (decoders.goal_revised e.payload) >>= apply_goal_revised d e.occurred_at
    | DeliveryEventType.requirement_updated ↦
        decoded (decoders.requirement_updated e.payload)
        >>= apply_requirement_updated d e.occurred_at
    | DeliveryEventType.decision_requested ↦
        decoded (decoders.decision_requested e.payload) >>= apply_decision_requested d e.occurred_at
    | DeliveryEventType.decision_resolved ↦
        decoded (decoders.decision_resolved e.payload) >>= apply_decision_resolved d e.occurred_at
    | DeliveryEventType.other t ↦ ok d
  ]

  -- The loop, from the index `i` with the delivery so far.
  unfoldable pub replay_from : ℕ → Delivery → List DeliveryEvent → Result ReplayError Delivery
  replay_from i d [] = ok d
  replay_from i d (e ∷ es) =
      refuse (not (e.sequence == suc i)) invalid_delivery
      >> (apply_event i d e >>= λ next. replay_from (suc i) next es)

  -- `ReplayDelivery`.
  unfoldable pub replay_delivery : List DeliveryEvent → Result ReplayError Delivery
  replay_delivery events = replay_from 0 zero_delivery events >>= λ d.
      if is_empty d.id then err invalid_delivery else ok d

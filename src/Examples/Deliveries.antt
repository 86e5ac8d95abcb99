-- ===== src/Examples/Deliveries.antt =====
-- A delivery and its requirement.
use chronos_code.Base.{
  codes, text_eq, true, false, List, [], ◌∷◌, some, ok, is_ok, ◌≡◌, ◌⊎◌, inl, inr, refl,
}
use chronos_code.Base.Int.{pos}
use chronos_code.Delivery.Domain.{
  Delivery, DeliveryState, Requirement, RequirementStatus, state_in, is_terminal_delivery_state,
  allowed_next, valid_delivery_transition, transition, validate_requirement,
}
use chronos_code.Delivery.Lifecycle.{
  run, terminal_absorbs, cancellation-accepted, transition-succeeded,
}
use chronos_code.Delivery.Requirements.{validate_requirement-accepts}

abbrev delivery : DeliveryState → Delivery
delivery state = record {
  scope = record { tenant_id = codes "t"; repository_id = codes "r" };
  id = codes "d";
  admission_key = codes "k";
  state = state;
  version = pos 1;
  current_goal_revision = pos 1;
  policy_reference = codes "p";
  max_cost_microdollars = pos 0;
  created_at = 1;
  updated_at = 1;
  goals = [];
  requirements = [];
  decisions = [];
}

abbrev attempts : List DeliveryState
attempts = DeliveryState.queued ∷ DeliveryState.running ∷ DeliveryState.cancelled ∷ []

running_goes_on : is_terminal_delivery_state DeliveryState.running ≡ false
unfolding is_terminal_delivery_state state_in text_eq
running_goes_on = refl

terminal_absorbs_example :
    run (delivery DeliveryState.failed) attempts ≡ (delivery DeliveryState.failed, 3)
terminal_absorbs_example =
    terminal_absorbs (delivery DeliveryState.failed) attempts (inr (inl refl))

cancellation-accepted_example :
    run
      (delivery DeliveryState.running)
      (DeliveryState.cancel_requested ∷ DeliveryState.cancelled ∷ [])
    ≡ (delivery DeliveryState.cancelled, 0)
cancellation-accepted_example =
    cancellation-accepted (delivery DeliveryState.running) refl running_goes_on

reconciled :
    transition (delivery DeliveryState.reconciling) DeliveryState.succeeded
    ≡ ok (delivery DeliveryState.succeeded)
unfolding transition valid_delivery_transition is_terminal_delivery_state state_in allowed_next
reconciled = refl

transition-succeeded_example :
    ((DeliveryState.reconciling ≡ DeliveryState.running)
      ⊎ (DeliveryState.reconciling ≡ DeliveryState.reconciling))
    × (delivery DeliveryState.succeeded ≡ delivery DeliveryState.succeeded)
transition-succeeded_example =
    transition-succeeded (delivery DeliveryState.reconciling) (delivery DeliveryState.succeeded)
      reconciled

abbrev requirement : Requirement
requirement = record {
  id = codes "r1";
  goal_revision = pos 1;
  statement = codes "It builds.";
  status = RequirementStatus.waived;
  checks =
      record { id = codes "c1"; statement = codes "build" }
      ∷ record { id = codes "c2"; statement = codes "test" }
      ∷ [];
  waiver = some (record { actor = codes "lead"; reason = codes "prototype"; created_at = 1 });
}

validate_requirement-accepts_example : is_ok (validate_requirement requirement (pos 1)) ≡ true
unfolding text_eq
validate_requirement-accepts_example = validate_requirement-accepts requirement (pos 1)

-- ===== src/Queue/Admit.antt =====
-- The admission of deliveries: Admit, AdmitRunnable, admit and normalizeAdmission of
-- internal/execution/delivery_store.go. The clock's answer for an event without a time is an
-- argument; the hash of the content is a parameter.
use mathlib.Core.Option
use chronos_code.Base.{
  Text, ℕ, ◌==◌, Bool, ◌&&◌, ◌||◌, not, List, [], ◌∷◌, ◌++◌, map, is_empty, has_text, Option, none,
  some, Result, ok, err, refuse, ◌>>=◌, ◌>>◌, if◌then◌else◌, codes, text_eq,
}
use chronos_code.Base.Int.{ℤ, pos, add64, ltb_ℤ}
use chronos_code.Delivery.Domain.{
  Delivery, DeliveryState, DeliveryScope, Goal, Requirement, RequirementWaiver, state_eq,
  validate_requirement,
}
use chronos_code.Queue.Rows.{
  QueueStatus, QueueRow, Case, Store, DeliveryEvent, DeliveryEventType, EventIdentity, QueueError,
}
use chronos_code.Queue.Cases.{DeliveryRef, ref_of, find_case, in_case}
use chronos_code.Queue.Loading.{load_delivery}
use chronos_code.Queue.Journal.{
  Formats, AdmissionContent, append_delivery_event, transition_in_tx, queue_event_identity,
}
use chronos_code.Queue.Service.{validate_delivery_ref}

pub record Admission : Type 0 where
  pub scope : DeliveryScope
  pub delivery_id : Text
  pub admission_key : Text
  pub goal : Goal
  pub requirements : List Requirement
  pub policy_reference : Text
  pub max_cost_microdollars : ℤ
  pub event : EventIdentity

abbrev pub or_time : ℕ → ℕ → ℕ
or_time time default = if time == 0 then default else time

abbrev dated : ℕ → RequirementWaiver → RequirementWaiver
dated at w = record w { created_at = or_time w.created_at at }

abbrev undated : RequirementWaiver → RequirementWaiver
undated w = record w { created_at = 0 }

abbrev undated_requirement : Requirement → Requirement
undated_requirement r = record r { waiver = Option.map undated r.waiver }

abbrev normal_requirement : ℕ → Requirement → Requirement
normal_requirement at r = record r {
  goal_revision = pos 1;
  waiver = Option.map (dated at) r.waiver;
}

-- The loop over the requirements, with the IDs seen.
unfoldable pub normalize_requirements :
    List Text → ℕ → List Requirement → Result QueueError (List Requirement)
normalize_requirements seen at [] = ok []
normalize_requirements seen at (r ∷ rs) =
    let rest = normalize_requirements (r.id ∷ seen) at rs in
    let r' = normal_requirement at r in
    elim (validate_requirement r' (pos 1)) [
      | err e ↦ err QueueError.invalid_delivery
      | ok u ↦
          if has_text r.id seen
          then err QueueError.invalid_delivery
          else rest >>= λ rs'. ok (r' ∷ rs')
    ]

-- What `normalizeAdmission` refuses before it looks at the requirements, but for the reference.
abbrev pub is_incomplete : Admission → Bool
is_incomplete a =
    is_empty a.admission_key
    || is_empty a.goal.statement
    || is_empty a.goal.actor
    || is_empty a.event.id
    || is_empty a.event.idempotency_key
    || ltb_ℤ a.max_cost_microdollars (pos 0)

abbrev pub admission_ref : Admission → DeliveryRef
admission_ref a = record { scope = a.scope; id = a.delivery_id }

-- `normalizeAdmission`, without the fingerprint.
unfoldable pub normalize_admission : ℕ → Admission → Result QueueError Admission
normalize_admission now a =
    let at = or_time a.event.occurred_at now in
    validate_delivery_ref (admission_ref a)
    >> refuse (is_incomplete a) QueueError.invalid_delivery
    >> (normalize_requirements [] at a.requirements >>= λ rs. ok (record a {
      goal = record a.goal { revision = pos 1; created_at = or_time a.goal.created_at at };
      requirements = rs;
      event = record a.event { occurred_at = at };
    }))

-- `fingerprintInput` of a normalized admission.
abbrev pub fingerprint_input : Admission → AdmissionContent
fingerprint_input a = record {
  delivery_id = a.delivery_id;
  goal = record a.goal { created_at = 0 };
  requirements = map undated_requirement a.requirements;
  policy_reference = a.policy_reference;
  max_cost_microdollars = a.max_cost_microdollars;
  event_id = a.event.id;
  event_idempotency_key = a.event.idempotency_key;
}

-- `WHERE tenant_id = ? AND repository_id = ? AND admission_key = ?`.
unfoldable pub find_admission : Admission → Store → Option Case
find_admission a [] = none
find_admission a (c ∷ cs) =
    let rest = find_admission a cs in
    if text_eq c.delivery.scope.tenant_id a.scope.tenant_id
      && text_eq c.delivery.scope.repository_id a.scope.repository_id
      && text_eq c.delivery.admission_key a.admission_key
    then some c
    else rest

-- The projection of a new delivery.
abbrev pub admitted_delivery : Admission → Delivery
admitted_delivery a = record {
  scope = a.scope;
  id = a.delivery_id;
  admission_key = a.admission_key;
  state = DeliveryState.admitted;
  version = pos 1;
  current_goal_revision = pos 1;
  policy_reference = a.policy_reference;
  max_cost_microdollars = a.max_cost_microdollars;
  created_at = a.event.occurred_at;
  updated_at = a.event.occurred_at;
  goals = a.goal ∷ [];
  requirements = a.requirements;
  decisions = [];
}

abbrev pub admit_identity : Admission → Text → EventIdentity
admit_identity a id = queue_event_identity id (codes "admit") (pos 0) a.event.occurred_at

-- The rows of a delivery that is only admitted.
abbrev pub initial : Admission → Text → List DeliveryEvent → Case
initial a fingerprint events = record {
  delivery = admitted_delivery a;
  admission_fingerprint = fingerprint;
  queue = none;
  attempts = [];
  events = events;
}

module _ (formats : Formats) where
  abbrev ready_row : ℕ → QueueRow
  ready_row created =
      let at = formats.timestamp created in
      record {
        status = QueueStatus.ready;
        available_at = at;
        waiting_signal = [];
        lease_owner_id = none;
        lease_epoch = 0;
        lease_acquired_at = none;
        lease_expires_at = none;
        lease_heartbeat_at = none;
        result_json = [];
        created_at = at;
        updated_at = at;
      }

  -- `INSERT ... ON CONFLICT DO NOTHING`.
  unfoldable pub ensure_row : Case → Result QueueError (Delivery × Case)
  ensure_row b = elim b.queue [
    | some row ↦ ok (load_delivery formats.timestamp b.delivery, b)
    | none ↦ ok (
      load_delivery formats.timestamp b.delivery,
      record b { queue = some (ready_row b.delivery.created_at) },
    )
  ]

  -- A delivery that is only admitted is queued.
  unfoldable pub queue_admission : Admission → Case → Result QueueError Case
  queue_admission a c =
      if state_eq c.delivery.state DeliveryState.admitted
      then transition_in_tx formats DeliveryState.queued (admit_identity a c.delivery.id) c
      else ok c

  -- The admission of a delivery that is there, as a runnable one.
  unfoldable pub ensure_case : Admission → Case → Result QueueError (Delivery × Case)
  ensure_case a c = queue_admission a c >>= ensure_row

  -- The rows of a new delivery before it is queued.
  unfoldable pub admit_case : Admission → Text → Result QueueError Case
  admit_case a fingerprint =
      let d = admitted_delivery a in
      append_delivery_event formats [] DeliveryEventType.admitted (formats.encode_admitted d)
        a.event []
      >>= λ events. ok (initial a fingerprint events)

  -- The rows of a new delivery that is queued at once.
  unfoldable pub queue_case : Admission → Case → Result QueueError Case
  queue_case a c =
      let version = add64 c.delivery.version (pos 1) in
      let payload =
        formats.encode_transitioned
          (record { from = c.delivery.state; to = DeliveryState.queued; version = version }) in
      append_delivery_event formats c.events DeliveryEventType.transitioned payload
        (admit_identity a c.delivery.id) []
      >>= λ events. ok (record c {
        delivery = record c.delivery { state = DeliveryState.queued; version = version };
        queue = some (ready_row c.delivery.created_at);
        events = events;
      })

  unfoldable pub new_case : Admission → Text → Bool → Result QueueError Case
  new_case a fingerprint runnable =
      admit_case a fingerprint >>= λ c. if runnable then queue_case a c else ok c

  -- The part of `admit` after the normalization.
  unfoldable pub admit_normal : Admission → Bool → Store → Result QueueError (Delivery × Store)
  admit_normal a runnable s =
      let fingerprint = formats.digest_admission (fingerprint_input a) in
      elim (find_admission a s) [
        | some c ↦
            if not (text_eq c.delivery.id a.delivery_id)
              || not (text_eq c.admission_fingerprint fingerprint)
            then err QueueError.admission_conflict
            else if not runnable
            then ok (load_delivery formats.timestamp c.delivery, s)
            else in_case (ref_of c.delivery) QueueError.delivery_not_found (ensure_case a) s
        | none ↦ elim (find_case (admission_ref a) s) [
          | some c ↦ err QueueError.admission_conflict
          | none ↦ new_case a fingerprint runnable >>= λ c. ok (c.delivery, s ++ c ∷ [])
        ]
      ]

  -- `admit`: Admit, and AdmitRunnable with `true`.
  unfoldable pub admit : Admission → Bool → ℕ → Store → Result QueueError (Delivery × Store)
  admit a runnable now s = normalize_admission now a >>= λ n. admit_normal n runnable s

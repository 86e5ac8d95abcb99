-- ===== src/Examples/Codecs.antt =====
-- A coding of deliveries, of the payload of a transition, and of times, for the runs of the queue.
use mathlib.Core.Path.{subst}
use chronos_code.Base.{
  Text, ℕ, Bool, true, false, List, [], ◌∷◌, Option, none, some, ◌==◌, if◌then◌else◌, ◌++◌, ap, ◌≡◌,
  refl, arith,
}
use chronos_code.Base.Int.{ℤ, pos, negsuc}
use chronos_code.Delivery.Domain.{
  Delivery, DeliveryState, DeliveryScope, Goal, AcceptanceCheck, RequirementWaiver,
  RequirementStatus, Requirement, DecisionResolution, Decision, state_number, state_name,
}
use chronos_code.Queue.Journal.{Formats, TransitionedPayload}
use chronos_code.Queue.Replay.{Decoders}
use chronos_code.Examples.Coding.{Coding, number, pair, through, many}

abbrev state_of : ℕ → Text → DeliveryState
state_of n t =
    if n == 0
    then DeliveryState.admitted
    else if n == 1
    then DeliveryState.queued
    else if n == 2
    then DeliveryState.running
    else if n == 3
    then DeliveryState.checkpointing
    else if n == 4
    then DeliveryState.waiting_retry
    else if n == 5
    then DeliveryState.waiting_decision
    else if n == 6
    then DeliveryState.waiting_credentials
    else if n == 7
    then DeliveryState.waiting_quota
    else if n == 8
    then DeliveryState.paused
    else if n == 9
    then DeliveryState.reconciling
    else if n == 10
    then DeliveryState.replanning
    else if n == 11
    then DeliveryState.cancel_requested
    else if n == 12
    then DeliveryState.succeeded
    else if n == 13
    then DeliveryState.failed
    else if n == 14
    then DeliveryState.cancelled
    else DeliveryState.other t

pub state_of-state :
    (state : DeliveryState) → state_of (state_number state) (state_name state) ≡ state
state_of-state state = ground arith

abbrev text : Coding Text
text = many number

abbrev int_parts : ℤ → ℕ × ℕ
int_parts (pos n) = (0, n)
int_parts (negsuc n) = (1, n)

abbrev int_of : ℕ × ℕ → ℤ
int_of p = if p.0 == 0 then pos p.1 else negsuc p.1

pub int_of-parts : (n : ℤ) → int_of (int_parts n) ≡ n
int_of-parts (pos n) = refl
int_of-parts (negsuc n) = refl

abbrev int : Coding ℤ
int = through int_parts int_of int_of-parts (pair number number)

abbrev state : Coding DeliveryState
state =
    through (λ s. (state_number s, state_name s)) (λ p. state_of p.0 p.1) state_of-state
      (pair number text)

abbrev bool_number : Bool → ℕ
bool_number true = 1
bool_number false = 0

pub bool_of-number : (b : Bool) → (bool_number b == 1) ≡ b
bool_of-number true = refl
bool_of-number false = refl

abbrev bool : Coding Bool
bool = through bool_number (λ n. n == 1) bool_of-number number

module _ {ℓ} {A : Type ℓ} where
  abbrev listed : Option A → List A
  listed none = []
  listed (some a) = a ∷ []

  abbrev first : List A → Option A
  first [] = none
  first (a ∷ as') = some a

  pub first-listed : (o : Option A) → first (listed o) ≡ o
  first-listed none = refl
  first-listed (some a) = refl

  abbrev optional : Coding A → Coding (Option A)
  optional c = through listed first first-listed (many c)

abbrev status_parts : RequirementStatus → ℕ × Text
status_parts RequirementStatus.accepted = (0, [])
status_parts RequirementStatus.satisfied = (1, [])
status_parts RequirementStatus.waived = (2, [])
status_parts (RequirementStatus.other t) = (3, t)

abbrev status_of : ℕ × Text → RequirementStatus
status_of p =
    if p.0 == 0
    then RequirementStatus.accepted
    else if p.0 == 1
    then RequirementStatus.satisfied
    else if p.0 == 2
    then RequirementStatus.waived
    else RequirementStatus.other p.1

pub status_of-parts : (s : RequirementStatus) → status_of (status_parts s) ≡ s
status_of-parts s = ground arith

abbrev status : Coding RequirementStatus
status = through status_parts status_of status_of-parts (pair number text)

abbrev scope : Coding DeliveryScope
scope =
    through (λ r. (r.tenant_id, r.repository_id))
      (λ p. record { tenant_id = p.0; repository_id = p.1 }) (λ r. refl) (pair text text)

abbrev goal : Coding Goal
goal =
    through (λ r. (r.revision, (r.statement, (r.actor, r.created_at))))
      (λ p. record { revision = p.0; statement = p.1.0; actor = p.1.1.0; created_at = p.1.1.1 })
      (λ r. refl) (pair int (pair text (pair text number)))

abbrev check : Coding AcceptanceCheck
check =
    through (λ r. (r.id, r.statement)) (λ p. record { id = p.0; statement = p.1 }) (λ r. refl)
      (pair text text)

abbrev waiver : Coding RequirementWaiver
waiver =
    through (λ r. (r.actor, (r.reason, r.created_at)))
      (λ p. record { actor = p.0; reason = p.1.0; created_at = p.1.1 }) (λ r. refl)
      (pair text (pair text number))

abbrev requirement : Coding Requirement
requirement =
    through (λ r. (r.id, (r.goal_revision, (r.statement, (r.status, (r.checks, r.waiver))))))
      (λ p. record {
        id = p.0;
        goal_revision = p.1.0;
        statement = p.1.1.0;
        status = p.1.1.1.0;
        checks = p.1.1.1.1.0;
        waiver = p.1.1.1.1.1;
      })
      (λ r. refl)
      (pair text (pair int (pair text (pair status (pair (many check) (optional waiver))))))

abbrev resolution : Coding DecisionResolution
resolution =
    through (λ r. (r.actor, (r.choice, (r.rationale, r.resolved_at))))
      (λ p. record { actor = p.0; choice = p.1.0; rationale = p.1.1.0; resolved_at = p.1.1.1 })
      (λ r. refl) (pair text (pair text (pair text number)))

abbrev decision : Coding Decision
decision =
    through
      (λ r. (
        r.id,
        (
          r.question,
          (
            r.options,
            (
              r.recommendation,
              (
                r.consequences,
                (
                  r.reversible,
                  (r.deadline, (r.blocked_dependencies, (r.requested_at, r.resolution))),
                ),
              ),
            ),
          ),
        ),
      ))
      (λ p. record {
        id = p.0;
        question = p.1.0;
        options = p.1.1.0;
        recommendation = p.1.1.1.0;
        consequences = p.1.1.1.1.0;
        reversible = p.1.1.1.1.1.0;
        deadline = p.1.1.1.1.1.1.0;
        blocked_dependencies = p.1.1.1.1.1.1.1.0;
        requested_at = p.1.1.1.1.1.1.1.1.0;
        resolution = p.1.1.1.1.1.1.1.1.1;
      })
      (λ r. refl)
      (pair text (
        pair text (
          pair (many text) (
            pair text (
              pair text (
                pair bool (
                  pair (optional number)
                    (pair (many text) (pair number (optional resolution))))))))))

abbrev whole : Coding Delivery
whole =
    through
      (λ r. (
        r.scope,
        (
          r.id,
          (
            r.admission_key,
            (
              r.state,
              (
                r.version,
                (
                  r.current_goal_revision,
                  (
                    r.policy_reference,
                    (
                      r.max_cost_microdollars,
                      (r.created_at, (r.updated_at, (r.goals, (r.requirements, r.decisions)))),
                    ),
                  ),
                ),
              ),
            ),
          ),
        ),
      ))
      (λ p. record {
        scope = p.0;
        id = p.1.0;
        admission_key = p.1.1.0;
        state = p.1.1.1.0;
        version = p.1.1.1.1.0;
        current_goal_revision = p.1.1.1.1.1.0;
        policy_reference = p.1.1.1.1.1.1.0;
        max_cost_microdollars = p.1.1.1.1.1.1.1.0;
        created_at = p.1.1.1.1.1.1.1.1.0;
        updated_at = p.1.1.1.1.1.1.1.1.1.0;
        goals = p.1.1.1.1.1.1.1.1.1.1.0;
        requirements = p.1.1.1.1.1.1.1.1.1.1.1.0;
        decisions = p.1.1.1.1.1.1.1.1.1.1.1.1;
      })
      (λ r. refl)
      (pair scope (
        pair text (
          pair text (
            pair state (
              pair int (
                pair int (
                  pair text (
                    pair int (
                      pair number (
                        pair number
                          (pair (many goal) (pair (many requirement) (many decision)))))))))))))

abbrev payload : Coding TransitionedPayload
payload =
    through (λ r. (r.from, (r.to, r.version)))
      (λ p. record { from = p.0; to = p.1.0; version = p.1.1 }) (λ r. refl)
      (pair state (pair state int))

abbrev pub read_only {ℓ} : {A : Type ℓ} → Coding A → Text → Option A
read_only c t = elim (c.read t) [ none ↦ none | some p ↦ some p.0 ]

append_nil : (l : List ℕ) → l ++ [] ≡ l
append_nil [] = refl
append_nil (n ∷ l) = ap (λ k. n ∷ k) (append_nil l)

read_only-write {ℓ} : {A : Type ℓ} (c : Coding A) (a : A) → read_only c (c.write a) ≡ some a
read_only-write c a =
    let front : c.read (c.write a) ≡ some (a, []) =
      subst (λ l. c.read l ≡ some (a, [])) (append_nil (c.write a)) (c.law a []) in
    rw (read_only, front) refl

-- Times are compared as texts of one byte.
abbrev pub formats : Formats
formats = record {
  timestamp = λ n. n ∷ [];
  encode_admitted = whole.write;
  encode_transitioned = payload.write;
  digest_admission = λ c. c.delivery_id;
}

-- No payloads but those of admissions and transitions.
abbrev pub decoders : Decoders
decoders = record {
  admitted = read_only whole;
  transitioned = read_only payload;
  goal_revised = λ t. none;
  requirement_updated = λ t. none;
  decision_requested = λ t. none;
  decision_resolved = λ t. none;
}

pub admitted-read : (d : Delivery) → decoders.admitted (formats.encode_admitted d) ≡ some d
admitted-read = read_only-write whole

pub transitioned-read :
    (p : TransitionedPayload) → decoders.transitioned (formats.encode_transitioned p) ≡ some p
transitioned-read = read_only-write payload

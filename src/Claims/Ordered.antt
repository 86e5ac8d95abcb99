-- ===== src/Claims/Ordered.antt =====
-- Claims that stand after their parents, and the status that `applyDerived` gives.
use mathlib.Core.Option
use chronos_code.Base.{
  Text, text_eq_iff, text_eq_refl, has_text, all, Bool, true, false, not, List, [], ◌∷◌,
  if◌then◌else◌, Option, none, some, is_none, ok, >>=-eq-ok, ◌≡◌, refl, ◌∙◌, arith, Option-cases,
  inl, inr, Bool-cases,
}
use chronos_code.Base.Dict.{Dict, lookup}
use chronos_code.Claims.Store.{
  Status, no_reason, Entry, status_eq, is_no_reason, set_status, derived_from, first_not_live,
  apply_derived,
}

abbrev pub parents_of : Dict Entry → Text → Option (List Text)
parents_of m id = Option.map (λ e. e.claim.derived_from) (lookup id m)

-- The claims stand after their parents, each once, behind those `before` them.
abbrev pub IsOrdered : (Text → Option (List Text)) → List Text → List Text → Type 0
IsOrdered parents before [] = Unit
IsOrdered parents before (id ∷ ids) =
    ((ps : List Text) × (parents id ≡ some ps)
      × ((p : Text) → has_text p ps ≡ true → has_text p before ≡ true))
    × ((has_text id before ≡ false) × IsOrdered parents (id ∷ before) ids)

pub IsOrdered-same :
    (f g : Text → Option (List Text)) (before ids : List Text)
    → ((k : Text) → has_text k ids ≡ true → g k ≡ f k)
    → IsOrdered f before ids
    → IsOrdered g before ids
IsOrdered-same f g before [] same h = tt
IsOrdered-same f g before (id ∷ ids) same ((ps, known, in_front), (new, rest)) = (
  (ps, same id (ground (arith, text_eq_refl id)) ∙ known, in_front),
  (new, IsOrdered-same f g (id ∷ before) ids (λ k h. same k (ground arith)) rest),
)

-- What stands before is not met again.
pub IsOrdered-once :
    (f : Text → Option (List Text)) (before ids : List Text) (k : Text)
    → IsOrdered f before ids
    → has_text k before ≡ true
    → has_text k ids ≡ false
IsOrdered-once f before [] k h b = refl
IsOrdered-once f before (id ∷ ids) k (head, (new, rest)) b =
    ground (arith, IsOrdered-once f (id ∷ before) ids k rest, text_eq_iff k id)

abbrev pub is_known : Dict Entry → Text → Bool
is_known m id = not (is_none (lookup id m))

abbrev pub is_live : Dict Entry → Text → Bool
is_live m id = elim (lookup id m) [ none ↦ false | some e ↦ status_eq e.claim.status Status.live ]

-- The status of a claim whose own anchors hold or not, and whose parents are all live or not.
abbrev pub verdict : Bool → Bool → Status
verdict own parents = if own then if parents then Status.live else Status.doubted else Status.stale

first_not_live-all :
    (m : Dict Entry) (ps : List Text)
    → ((p : Text) → has_text p ps ≡ true → is_known m p ≡ true)
    → (o : Option (Status × Text)) × (first_not_live m ps ≡ ok o) × (is_none o ≡ all (is_live m) ps)
unfolding first_not_live
first_not_live-all m [] known = (none, refl, refl)
first_not_live-all m (p ∷ ps) known =
    let (o, found, same) = first_not_live-all m ps (λ q h. known q (ground arith)) in
    elim (Option-cases (lookup p m)) [
      | inl missing ↦ absurd (ground (arith, known p, text_eq_refl p))
      | inr (e, there) ↦ elim (Bool-cases (status_eq e.claim.status Status.live)) [
        | inl live ↦ (o, ground arith, ground arith)
        | inr other ↦ (some (e.claim.status, p), ground arith, ground arith)
      ]
    ]

pub apply_derived-verdict :
    (m : Dict Entry) (e : Entry)
    → ((p : Text) → has_text p e.claim.derived_from ≡ true → is_known m p ≡ true)
    → (e' : Entry) × (apply_derived m e ≡ ok e')
      × (e'.claim.derived_from ≡ e.claim.derived_from)
      × (e'.claim.status
          ≡ verdict (is_no_reason e.own_reason) (all (is_live m) e.claim.derived_from))
unfolding apply_derived
apply_derived-verdict m e known =
    let (o, found, same) = first_not_live-all m e.claim.derived_from known in
    elim (Bool-cases (is_no_reason e.own_reason)) [
      | inl own ↦ elim (Option-cases o) [
        | inl nothing ↦
            (set_status e Status.live no_reason, rw (own, found, nothing) refl, refl, ground arith)
        | inr ((status, id), there) ↦ (
          set_status e Status.doubted (derived_from status id),
          rw (own, found, there) refl,
          refl,
          ground arith,
        )
      ]
      | inr broken ↦ (set_status e Status.stale e.own_reason, rw broken refl, refl, ground arith)
    ]

pub all-same :
    (f g : Text → Bool) (ps : List Text)
    → ((p : Text) → has_text p ps ≡ true → g p ≡ f p)
    → all g ps ≡ all f ps
all-same f g [] same = refl
all-same f g (p ∷ ps) same =
    ground (arith, text_eq_refl p, same p, all-same f g ps (λ q h. same q (ground arith)))

pub apply_derived-id :
    (m : Dict Entry) (e : Entry) {e' : Entry} → apply_derived m e ≡ ok e' → e'.claim.id ≡ e.claim.id
unfolding apply_derived
apply_derived-id m e {e'} h = elim (Bool-cases (is_no_reason e.own_reason)) [
  | inr broken ↦ ground arith
  | inl own ↦
      let (o, found, done) = >>=-eq-ok (first_not_live m e.claim.derived_from) _ (rw own at h) in
      elim (Option-cases o) [
        | inl nothing ↦ ground arith
        | inr ((status, id), there) ↦ ground arith
      ]
]

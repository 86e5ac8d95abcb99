-- ===== src/Queue/Cases.antt =====
-- The tables as one list of cases under the primary key (tenant, repository, delivery):
-- reading and writing the rows of one key in a transaction.
use chronos_code.Base.{
  Text, text_eq, text_eq_iff, text_eq_refl, Bool, true, ◌&&◌, [], ◌∷◌, Option, none, some, Result,
  ok, err, ◌>>=◌, if◌then◌else◌, ◌++◌, ◌≡◌, arith,
}
use chronos_code.Delivery.Domain.{Delivery, DeliveryScope}
use chronos_code.Queue.Rows.{Case, Store, QueueError}

pub record DeliveryRef : Type 0 where
  pub scope : DeliveryScope
  pub id : Text

abbrev pub ref_of : Delivery → DeliveryRef
ref_of d = record { scope = d.scope; id = d.id }

-- `WHERE tenant_id = ? AND repository_id = ? AND delivery_id = ?`.
unfoldable pub ref_eq : DeliveryRef → DeliveryRef → Bool
ref_eq a b =
    text_eq a.scope.tenant_id b.scope.tenant_id
    && text_eq a.scope.repository_id b.scope.repository_id
    && text_eq a.id b.id

unfoldable pub find_case : DeliveryRef → Store → Option Case
find_case ref [] = none
find_case ref (c ∷ cs) = if ref_eq (ref_of c.delivery) ref then some c else find_case ref cs

-- The rows under the key after an UPDATE or an INSERT of a child.
unfoldable pub put_case : DeliveryRef → Case → Store → Store
put_case ref c [] = []
put_case ref c (b ∷ bs) =
    let rest = put_case ref c bs in if ref_eq (ref_of b.delivery) ref then c ∷ bs else b ∷ rest

-- A transaction on the rows of one key: an error rolls it back.
unfoldable pub in_case {ℓ} :
    {A : Type ℓ}
    → DeliveryRef
    → QueueError
    → (Case → Result QueueError (A × Case))
    → Store
    → Result QueueError (A × Store)
in_case ref missing work s = elim (find_case ref s) [
  | none ↦ err missing
  | some c ↦ work c >>= λ r. ok (r.0, put_case ref r.1 s)
]

pub ref_eq_refl : (a : DeliveryRef) → ref_eq a a ≡ true
unfolding ref_eq
ref_eq_refl a =
    ground
      (arith, text_eq_refl a.scope.tenant_id, text_eq_refl a.scope.repository_id, text_eq_refl a.id)

pub ref_eq_sound : (a b : DeliveryRef) → ref_eq a b ≡ true → a ≡ b
unfolding ref_eq
ref_eq_sound a b h = ground (
  arith,
  text_eq_iff a.scope.tenant_id b.scope.tenant_id,
  text_eq_iff a.scope.repository_id b.scope.repository_id,
  text_eq_iff a.id b.id,
)

pub find_case-ref :
    (ref : DeliveryRef) (s : Store) (c : Case) → find_case ref s ≡ some c → ref_of c.delivery ≡ ref
unfolding find_case
find_case-ref ref [] c h = cc
find_case-ref ref (b ∷ bs) c h =
    ground (arith, ref_eq_sound (ref_of b.delivery) ref, find_case-ref ref bs c)

-- What is read under a key after a write under another key or the same.
pub find_case-put_case :
    (ref key : DeliveryRef) (b c : Case) (s : Store)
    → find_case ref s ≡ some b
    → ref_of c.delivery ≡ ref
    → find_case key (put_case ref c s) ≡ (if ref_eq ref key then some c else find_case key s)
unfolding find_case put_case
find_case-put_case ref key b c [] h k = cc
find_case-put_case ref key b c (d ∷ ds) h k = ground (
  arith,
  ref_eq_sound (ref_of d.delivery) ref,
  ref_eq_sound ref key,
  find_case-put_case ref key b c ds,
)

-- What is read after a case is added.
pub find_case-append :
    (key : DeliveryRef) (c d : Case) (s : Store)
    → find_case key s ≡ some d
    → find_case key (s ++ c ∷ []) ≡ some d
unfolding find_case
find_case-append key c d [] h = cc
find_case-append key c d (b ∷ bs) h = ground (arith, find_case-append key c d bs)

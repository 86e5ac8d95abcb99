-- ===== src/Claims/Kept.antt =====
-- What every store keeps: its map and its order list the same claims, in an order of creation.
use mathlib.Core.Option
use chronos_code.Base.{
  Text, has_text, is_empty, ℕ, ◌≤◌, Bool, true, List, [], Option, ok, ◌≡◌, refl, ap, arith,
  Bool-cases, inl, inr,
}
use chronos_code.Base.Int.{pos}
use chronos_code.Base.Dict.{Dict, lookup}
use chronos_code.Claims.Store.{Change, Entry, Store, new_store, claim_id, refresh, filter_of}
use chronos_code.Claims.Ordered.{parents_of, IsOrdered, IsOrdered-same, is_known}
use chronos_code.Claims.Refreshed.{IsRefreshed, refresh-IsRefreshed}

-- The claims of the map are those of the order, numbered up to `count`, after their parents.
pub record IsWellFormed (s : Store) (count : ℕ) : Type 0 where
  pub counter : s.next ≡ pos count
  pub listed : (k : Text) → is_known s.entries k ≡ has_text k s.order
  pub numbered :
      (k : Text) → has_text k s.order ≡ true → (n : ℕ) × (k ≡ claim_id (pos n)) × (n ≤ count)
  pub ordered : IsOrdered (parents_of s.entries) [] s.order

-- A store without claims is one to begin with.
pub new_store-IsWellFormed : (root : Text) → IsWellFormed (new_store root) 0
new_store-IsWellFormed root = record {
  counter = refl;
  listed = λ k. unfold lookup in refl;
  numbered = λ k h. absurd cc;
  ordered = tt;
}

module _ (hash : Text → Text) (files : Text → Option Text) where
  IsRefreshed-parents :
      (everything : Bool) (filter : List Text) (m : Dict Entry) (ids : List Text) (r : Dict Entry)
      (cs : List Change) (k : Text)
      → IsRefreshed hash files everything filter m ids r cs
      → parents_of r k ≡ parents_of m k
  IsRefreshed-parents everything filter m ids r cs k facts = elim (Bool-cases (has_text k ids)) [
    | inr other ↦ ap (Option.map (λ e. e.claim.derived_from)) (facts.unchanged k other)
    | inl listed ↦
        let (e, e', s) = facts.settled k listed in ground (arith, s.found, s.refreshed, s.parents)
  ]

  -- `Refresh` of a well-formed store (its map and its order list the same claims, numbered up to its
  -- counter, each after its parents) succeeds and leaves it well-formed, with the same order.
  pub refresh-IsWellFormed :
      (s : Store) (paths : List Text) (count : ℕ)
      → IsWellFormed s count
      → (r : Dict Entry) × (cs : List Change) × (refresh hash files s paths
          ≡ ok (record s { entries = r }, cs))
        × IsWellFormed (record s { entries = r }) count
  refresh-IsWellFormed s paths count w =
      let (r, cs, done, facts) = refresh-IsRefreshed hash files s paths w.ordered in
      let same : (k : Text) → parents_of r k ≡ parents_of s.entries k = λ k.
        IsRefreshed-parents (is_empty paths) (filter_of s.root paths) s.entries s.order r cs k
          facts in
      (
        r,
        cs,
        done,
        record {
          counter = w.counter;
          listed = λ k. ground (arith, same k, w.listed k);
          numbered = w.numbered;
          ordered =
              IsOrdered-same (parents_of s.entries) (parents_of r) [] s.order (λ k h. same k)
                w.ordered;
        },
      )

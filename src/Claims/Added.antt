-- ===== src/Claims/Added.antt =====
-- What `Add` does to a well-formed store.
use mathlib.Core.Option
use mathlib.Core.Path.{subst}
use chronos_code.Base.{
  trim_space, Text, text_eq, text_eq_iff, text_eq_sound, text_eq_refl, has_text, is_empty,
  any-append, all, ℕ, suc, ◌+◌, ◌<◌, ◌^◌, true, false, ◌||◌, List, [], ◌∷◌, ◌++◌, if◌then◌else◌,
  Option, some, ok, refuse, >>=-eq-ok, ok-injective, ◌≡◌, refl, sym, ap, ◌∙◌, arith, Bool-cases,
  inl, inr,
}
use chronos_code.Base.Int.{pos, add64, add64_pos}
use chronos_code.Base.Dict.{Dict, lookup, insert, lookup-insert, has_key, has_key-lookup}
use chronos_code.Decimal.{format-injective}
use chronos_code.Claims.Anchor.{Anchor, text_required, anchor_required}
use chronos_code.Claims.Store.{
  Claim, Entry, Input, Store, new_entry, claim_id, find_parents, apply_derived, get_claim,
  is_no_reason, pin_all, add,
}
use chronos_code.Claims.Ordered.{
  parents_of, IsOrdered, IsOrdered-same, is_known, is_live, verdict, apply_derived-verdict,
  apply_derived-id, all-same,
}
use chronos_code.Claims.Kept.{IsWellFormed}

IsOrdered-end :
    (f : Text → Option (List Text)) (before ids : List Text) (id : Text) (ps : List Text)
    → IsOrdered f before ids
    → f id ≡ some ps
    → has_text id before ≡ false
    → has_text id ids ≡ false
    → ((p : Text) → has_text p ps ≡ true → (has_text p before || has_text p ids) ≡ true)
    → IsOrdered f before (ids ++ id ∷ [])
IsOrdered-end f before [] id ps h known new once parents =
    ((ps, known, λ p k. ground (arith, parents p k)), (new, tt))
IsOrdered-end f before (i ∷ ids) id ps (head, (new_i, rest)) known new once parents = (
  head,
  (
    new_i,
    IsOrdered-end f (i ∷ before) ids id ps rest known (ground (arith, text_eq_iff id i))
        (ground arith) (λ p k. ground (arith, parents p k)),
  ),
)

find_parents-known :
    (m : Dict Entry) (seen ids : List Text) {ps : List Text} (p : Text)
    → find_parents m seen ids ≡ ok ps
    → has_text p ps ≡ true
    → is_known m p ≡ true
unfolding find_parents
find_parents-known m seen [] p found h = absurd (ground arith)
find_parents-known m seen (id ∷ ids) {ps} p found h = elim (Bool-cases (has_text id seen)) [
  | inl again ↦ find_parents-known m seen ids p (rw again at found) h
  | inr first ↦ elim (Bool-cases (has_key id m)) [
    | inr missing ↦ absurd (ground arith)
    | inl there ↦
        let (qs, rest, same) =
          >>=-eq-ok (find_parents m (id ∷ seen) ids) _ (rw (first, there) at found) in
        ground (
          arith,
          text_eq_iff p id,
          has_key-lookup id m,
          find_parents-known m (id ∷ seen) ids p rest,
          same,
        )
  ]
]

claim_id-injective : (m n : ℕ) → claim_id (pos m) ≡ claim_id (pos n) → m ≡ n
unfolding claim_id
claim_id-injective m n h = ground (arith, format-injective m n)

abbrev next_id : Store → Text
next_id s = claim_id (add64 s.next (pos 1))

-- The store with a new entry, as `Add` first enters it and as it leaves it.
abbrev with_entry : Store → Entry → Entry → Store
with_entry s e e' = record s {
  entries = insert (next_id s) e' (insert (next_id s) e s.entries);
  order = s.order ++ next_id s ∷ [];
  next = add64 s.next (pos 1);
}

-- What `Add` has done to a store that it answers for.
pub record IsAdded (s : Store) (n : ℕ) (s' : Store) (c : Claim) : Type 0 where
  pub well_formed : IsWellFormed s' (suc n)
  pub fresh : is_known s.entries c.id ≡ false
  pub found : get_claim s' c.id ≡ some c
  pub others : (k : Text) → text_eq c.id k ≡ false → get_claim s' k ≡ get_claim s k
  pub parents : (p : Text) → has_text p c.derived_from ≡ true → has_text p s.order ≡ true
  pub status : c.status ≡ verdict true (all (is_live s.entries) c.derived_from)

module _ (hash : Text → Text) (files : Text → Option Text) where
  add_parts :
      (s : Store) (input : Input) {s' : Store} {c : Claim}
      → add hash files s input ≡ ok (s', c)
      → (anchors : List Anchor) × (ps : List Text) × (e' : Entry) × (find_parents s.entries []
            input.derived_from
          ≡ ok ps)
        × (apply_derived
              (insert (next_id s) (new_entry (next_id s) input anchors ps) s.entries)
              (new_entry (next_id s) input anchors ps)
            ≡ ok e')
        × (s' ≡ with_entry s (new_entry (next_id s) input anchors ps) e')
        × (c ≡ e'.claim)
  unfolding add
  add_parts s input h =
      let (u, has_body, h₁) =
        >>=-eq-ok (refuse (is_empty (trim_space input.text)) text_required) _ h in
      let (v, has_anchor, h₂) = >>=-eq-ok (refuse (is_empty input.anchors) anchor_required) _ h₁ in
      let (anchors, pinned, h₃) = >>=-eq-ok (pin_all hash files s.root input.anchors) _ h₂ in
      let (ps, found, h₄) = >>=-eq-ok (find_parents s.entries [] input.derived_from) _ h₃ in
      let (e', derived, h₅) = >>=-eq-ok (apply_derived _ _) _ h₄ in
      (
        anchors,
        ps,
        e',
        found,
        derived,
        ap (λ r. r.0) (sym (ok-injective h₅)),
        ap (λ r. r.1) (sym (ok-injective h₅)),
      )

  with_entry-lookup :
      (s : Store) (e e' : Entry) (k : Text)
      → lookup k (with_entry s e e').entries
        ≡ (if text_eq (next_id s) k then some e' else lookup k s.entries)
  with_entry-lookup s e e' k = ground (
    arith,
    lookup-insert (next_id s) k e' (insert (next_id s) e s.entries),
    lookup-insert (next_id s) k e s.entries,
  )

  next_count :
      (s : Store) (n : ℕ) (w : IsWellFormed s n)
      → n + 1 < 2 ^ 63
      → add64 s.next (pos 1) ≡ pos (suc n)
  next_count s n w bound =
      ap (λ n. add64 n (pos 1)) w.counter ∙ add64_pos n 1 bound ∙ ap pos (omega arith)

  -- The next ID is free.
  next_id-unused :
      (s : Store) (n : ℕ) (w : IsWellFormed s n)
      → n + 1 < 2 ^ 63
      → (next_id s ≡ claim_id (pos (suc n))) × (has_text (next_id s) s.order ≡ false)
  next_id-unused s n w bound =
      let named : next_id s ≡ claim_id (pos (suc n)) = ap claim_id (next_count s n w bound) in
      elim (Bool-cases (has_text (next_id s) s.order)) [
        | inr free ↦ (named, free)
        | inl used ↦
            let (m, same, small) = w.numbered (next_id s) used in
            absurd (omega (arith, small, claim_id-injective m (suc n) (sym same ∙ named)))
      ]

  with_entry-IsWellFormed :
      (s : Store) (e e' : Entry) (n : ℕ) (w : IsWellFormed s n)
      → n + 1 < 2 ^ 63
      → ((p : Text) → has_text p e'.claim.derived_from ≡ true → has_text p s.order ≡ true)
      → IsWellFormed (with_entry s e e') (suc n)
  with_entry-IsWellFormed s e e' n w bound parents =
      let (named, free) = next_id-unused s n w bound in
      record {
        counter = next_count s n w bound;
        listed = λ k. ground (
          arith,
          with_entry-lookup s e e' k,
          w.listed k,
          any-append (text_eq k) s.order (next_id s ∷ []),
          text_eq_iff k (next_id s),
          text_eq_iff (next_id s) k,
        );
        numbered = λ k h. elim (Bool-cases (has_text k s.order)) [
          | inl old ↦ let (m, same, small) = w.numbered k old in (m, same, omega (arith, small))
          | inr new ↦ (
            suc n,
            text_eq_sound k (next_id s)
                  (ground (arith, any-append (text_eq k) s.order (next_id s ∷ []), new, h))
                ∙ named,
            omega arith,
          )
        ];
        ordered =
            IsOrdered-end (parents_of (with_entry s e e').entries) [] s.order (next_id s)
              e'.claim.derived_from
              (IsOrdered-same (parents_of s.entries) (parents_of (with_entry s e e').entries) []
                s.order
                (λ k h. ground (arith, with_entry-lookup s e e' k, text_eq_iff (next_id s) k))
                w.ordered)
              (ground (arith, with_entry-lookup s e e' (next_id s), text_eq_refl (next_id s))) refl
              free parents;
      }

  -- The status of a new entry, by the claims that stood there.
  apply_derived-new :
      (s : Store) (e : Entry) (n : ℕ) (w : IsWellFormed s n) {e' : Entry}
      → has_text (next_id s) s.order ≡ false
      → is_no_reason e.own_reason ≡ true
      → ((p : Text) → has_text p e.claim.derived_from ≡ true → has_text p s.order ≡ true)
      → apply_derived (insert (next_id s) e s.entries) e ≡ ok e'
      → (e'.claim.derived_from ≡ e.claim.derived_from)
        × (e'.claim.status ≡ verdict true (all (is_live s.entries) e.claim.derived_from))
  apply_derived-new s e n w {e'} free own parents h =
      let elsewhere : (p : Text)
          → has_text p e.claim.derived_from ≡ true
          → lookup p (insert (next_id s) e s.entries) ≡ lookup p s.entries =
        λ p k. ground (
          arith,
          lookup-insert (next_id s) p e s.entries,
          parents p k,
          text_eq_iff (next_id s) p,
          free,
        ) in
      let (d, same, kept, status) =
        apply_derived-verdict (insert (next_id s) e s.entries) e
          (λ p k. ground (arith, elsewhere p k, w.listed p, parents p k)) in
      let d-e' : d ≡ e' = ok-injective (sym same ∙ h) in
      (
        ap (λ x. x.claim.derived_from) (sym d-e') ∙ kept,
        ap (λ x. x.claim.status) (sym d-e')
            ∙ status
            ∙ ap
                (λ b.
                  verdict b (all (is_live (insert (next_id s) e s.entries)) e.claim.derived_from))
                own
            ∙ ap (verdict true) (
                all-same (is_live s.entries) (is_live (insert (next_id s) e s.entries))
                  e.claim.derived_from (λ p k. ground (arith, elsewhere p k))),
      )

  with_entry-IsAdded :
      (s : Store) (e e' : Entry) (n : ℕ) (w : IsWellFormed s n)
      → n + 1 < 2 ^ 63
      → e.claim.id ≡ next_id s
      → is_no_reason e.own_reason ≡ true
      → ((p : Text) → has_text p e.claim.derived_from ≡ true → has_text p s.order ≡ true)
      → apply_derived (insert (next_id s) e s.entries) e ≡ ok e'
      → IsAdded s n (with_entry s e e') e'.claim
  with_entry-IsAdded s e e' n w bound named own parents h =
      let free : has_text (next_id s) s.order ≡ false = (next_id-unused s n w bound).1 in
      let id : e'.claim.id ≡ next_id s =
        apply_derived-id (insert (next_id s) e s.entries) e h ∙ named in
      let (kept, status) = apply_derived-new s e n w free own parents h in
      let parents' : (p : Text)
          → has_text p e'.claim.derived_from ≡ true
          → has_text p s.order ≡ true =
        λ p k. parents p (ap (has_text p) (sym kept) ∙ k) in
      record {
        well_formed = with_entry-IsWellFormed s e e' n w bound parents';
        fresh = ap (is_known s.entries) id ∙ (w.listed (next_id s) ∙ free);
        found =
            ap (get_claim (with_entry s e e')) id
            ∙ ground (arith, with_entry-lookup s e e' (next_id s), text_eq_refl (next_id s));
        others = λ k h.
            ap (Option.map (λ x. x.claim))
              (with_entry-lookup s e e' k ∙ ground (arith, ap (λ j. text_eq j k) id, h));
        parents = parents';
        status = status ∙ ap (λ ps. verdict true (all (is_live s.entries) ps)) (sym kept);
      }

  -- `Add` keeps a store well-formed (its map and its order list the same claims, numbered up to its
  -- counter, each after its parents), while its counter is below that of an `int64`: when it succeeds, the new
  -- claim has an ID that was free, `Get` finds it and every other claim as before, its parents are
  -- claims of the store, and it is live if they all are and doubted otherwise.
  pub add-IsAdded :
      (s : Store) (input : Input) (n : ℕ) (w : IsWellFormed s n) {s' : Store} {c : Claim}
      → n + 1 < 2 ^ 63
      → add hash files s input ≡ ok (s', c)
      → IsAdded s n s' c
  add-IsAdded s input n w {s'} {c} bound h =
      let (anchors, ps, e', found, derived, same_s, same_c) = add_parts s input h in
      let e : Entry = new_entry (next_id s) input anchors ps in
      subst (λ r. IsAdded s n r c) (sym same_s)
        (subst (IsAdded s n (with_entry s e e')) (sym same_c) (
          with_entry-IsAdded s e e' n w bound refl refl
            (λ p k. sym (w.listed p) ∙ find_parents-known s.entries [] input.derived_from p found k)
            derived))

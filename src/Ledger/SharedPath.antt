-- ===== src/Ledger/SharedPath.antt =====
-- The overlap of two scopes, and the paths that lie in both.
use chronos_code.Base.{
  Text, codes, text_eq, text_eq_iff, text_eq_refl, has_prefix, has_prefix_comparable,
  has_prefix_refl, has_prefix_snoc, trim_suffix, trim_suffix_cases, Bool, true, ◌&&◌, ◌||◌, ◌++◌,
  if◌then◌else◌, Bool-cases, ◌≡◌, ◌⊎◌, ◌↔◌, inl, inr, arith, ap, sym, ◌∙◌,
}
use chronos_code.Ledger.Event.{Scope}
use chronos_code.Ledger.Inside.{holds, holds-LiesIn, LiesIn-holds, LiesIn}
use chronos_code.Ledger.Scope.{is_workspace, is_directory, path_within, scope_overlaps}

abbrev inside : Text → Text
inside d = trim_suffix d (codes "/") ++ codes "/"

-- Of two directories that hold a path one is the other or below it.
inside_comparable :
    (a b : Text)
    → has_prefix (inside b) (inside a) ≡ true
    → (a ≡ b) ⊎ ((has_prefix b (inside a) ≡ true) ⊎ (has_prefix a (inside b) ≡ true))
inside_comparable a b h = elim (trim_suffix_cases b (codes "/")) [
  | inr slash ↦ inr (inl (ap (λ x. has_prefix x (inside a)) slash ∙ h))
  | inl bare ↦
      elim (has_prefix_snoc b'/' (trim_suffix b (codes "/")) (trim_suffix a (codes "/")) h) [
        | inl below ↦ inr (inl (ap (λ x. has_prefix x (inside a)) bare ∙ below))
        | inr same ↦ elim (trim_suffix_cases a (codes "/")) [
          | inl bare' ↦ inl (bare' ∙ sym same ∙ sym bare)
          | inr slash ↦ inr (
              inr (
                ap (λ x. has_prefix x (inside b)) (slash ∙ ap (λ x. x ++ codes "/") (sym same))
                ∙ has_prefix_refl (inside b)))
        ]
      ]
]

within_both :
    (p a b : Text)
    → path_within p a ≡ true
    → path_within p b ≡ true
    → (text_eq a b || path_within b a || path_within a b) ≡ true
unfolding path_within
within_both p a b h k = elim (Bool-cases (text_eq a (codes "."))) [
  | inl top ↦ ground arith
  | inr below_a ↦ elim (Bool-cases (text_eq b (codes "."))) [
    | inl top ↦ ground arith
    | inr below_b ↦
        elim (has_prefix_comparable p (inside a) (inside b) (ground arith) (ground arith)) [
          | inl shorter ↦ ground (arith, inside_comparable b a shorter, text_eq_iff a b)
          | inr longer ↦ ground (arith, inside_comparable a b longer, text_eq_iff a b)
        ]
  ]
]

shared_overlaps :
    (l r : Scope) (p : Text) → (holds l p && holds r p) ≡ true → scope_overlaps l r ≡ true
unfolding scope_overlaps
shared_overlaps l r p h = ground (
  arith,
  within_both p l.path r.path,
  text_eq_iff l.path p,
  text_eq_iff r.path p,
  text_eq_iff l.path r.path,
)

-- A path that overlapping scopes share: the path of one of them.
shared_path : Scope → Scope → Text
shared_path l r =
    if is_workspace l.kind
    then r.path
    else if is_workspace r.kind
    then l.path
    else if text_eq l.path r.path
    then l.path
    else if is_directory l.kind && path_within r.path l.path
    then r.path
    else l.path

overlaps_shared :
    (l r : Scope)
    → scope_overlaps l r ≡ true
    → (holds l (shared_path l r) && holds r (shared_path l r)) ≡ true
unfolding scope_overlaps shared_path
overlaps_shared l r h =
    ground (arith, text_eq_refl l.path, text_eq_refl r.path, text_eq_iff l.path r.path)

both : (a b : Bool) → (a && b) ≡ true → (a ≡ true) × (b ≡ true)
both a b h = (ground arith, ground arith)

-- Two scopes overlap exactly if some path lies in both: in the workspace any path lies, in another
-- scope its own path, and in a directory also the paths below it.
pub scope_overlaps-shared :
    (l r : Scope) → (scope_overlaps l r ≡ true) ↔ ((p : Text) × LiesIn p l × LiesIn p r)
scope_overlaps-shared l r = (
  λ h.
      let p = shared_path l r in
      let (in_l, in_r) = both (holds l p) (holds r p) (overlaps_shared l r h) in
      (p, holds-LiesIn l p in_l, holds-LiesIn r p in_r),
  λ (p, in_l, in_r).
      let here = LiesIn-holds l p in_l in
      let there = LiesIn-holds r p in_r in shared_overlaps l r p (ground arith),
)

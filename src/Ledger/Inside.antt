-- ===== src/Ledger/Inside.antt =====
-- Which paths lie in a scope, said apart from pathWithin of internal/execution/ledger.go.
use mathlib.Core.List.{append_assoc}
use chronos_code.Base.{
  Text, codes, text_eq, text_eq_iff, text_eq_refl, text_eq_sound, has_prefix-append,
  has_prefix-rest, trim_suffix, trim_suffix_cases, trim_suffix-append, Bool, Bool-cases, true, ◌&&◌,
  ◌||◌, ◌∷◌, ◌++◌, ◌≡◌, ap, sym, ◌∙◌, ◌⊎◌, inl, inr, arith,
}
use chronos_code.Ledger.Event.{Scope, ScopeKind}
use chronos_code.Ledger.Scope.{is_workspace, is_directory, path_within}

-- The path is one below the directory: any path for `.`, and otherwise the directory, a slash and
-- more, where a slash at the end of the directory does.
abbrev pub IsBelow : Text → Text → Type 0
IsBelow p d =
    (d ≡ codes ".")
    ⊎ (((rest : Text) × (p ≡ d ++ b'/' ∷ rest))
        ⊎ ((rest : Text) × (e : Text) × (d ≡ e ++ codes "/") × (p ≡ d ++ rest)))

-- The path lies in the scope: any path in the workspace, the path itself, and what is below a
-- directory.
abbrev pub LiesIn : Text → Scope → Type 0
LiesIn p s =
    (s.kind ≡ ScopeKind.workspace)
    ⊎ ((p ≡ s.path) ⊎ ((s.kind ≡ ScopeKind.directory) × IsBelow p s.path))

path_within-IsBelow : (p d : Text) → path_within p d ≡ true → IsBelow p d
unfolding path_within
path_within-IsBelow p d h = elim (Bool-cases (text_eq d (codes "."))) [
  | inl top ↦ inl (text_eq_sound d (codes ".") top)
  | inr named ↦
      let (rest, e) = has_prefix-rest p (trim_suffix d (codes "/") ++ codes "/") (ground arith) in
      elim (trim_suffix_cases d (codes "/")) [
        | inl bare ↦ inr (
            inl (
              rest,
              e
                  ∙ append_assoc (trim_suffix d (codes "/")) (codes "/") rest
                  ∙ ap (λ x. x ++ b'/' ∷ rest) (sym bare),
            ))
        | inr slash ↦
            inr (inr (rest, trim_suffix d (codes "/"), slash, e ∙ ap (λ x. x ++ rest) (sym slash)))
      ]
]

IsBelow-path_within : (p d : Text) → IsBelow p d → path_within p d ≡ true
unfolding path_within
IsBelow-path_within p d (inl top) = ground (arith, top, text_eq_refl (codes "."))
IsBelow-path_within p d (inr (inl (rest, e))) = elim (trim_suffix_cases d (codes "/")) [
  | inl bare ↦
      let same : p ≡ (trim_suffix d (codes "/") ++ codes "/") ++ rest =
        e
        ∙ ap (λ x. x ++ b'/' ∷ rest) bare
        ∙ sym (append_assoc (trim_suffix d (codes "/")) (codes "/") rest) in
      ground (arith, same, has_prefix-append (trim_suffix d (codes "/") ++ codes "/") rest)
  | inr slash ↦
      let same : p ≡ (trim_suffix d (codes "/") ++ codes "/") ++ b'/' ∷ rest =
        e ∙ ap (λ x. x ++ b'/' ∷ rest) slash in
      ground (arith, same, has_prefix-append (trim_suffix d (codes "/") ++ codes "/") (b'/' ∷ rest))
]
IsBelow-path_within p d (inr (inr (rest, e, slash, q))) =
    let trimmed : trim_suffix d (codes "/") ≡ e =
      ap (λ x. trim_suffix x (codes "/")) slash ∙ trim_suffix-append e (codes "/") in
    let same : p ≡ (trim_suffix d (codes "/") ++ codes "/") ++ rest =
      q ∙ ap (λ x. x ++ rest) (slash ∙ ap (λ x. x ++ codes "/") (sym trimmed)) in
    ground (arith, same, has_prefix-append (trim_suffix d (codes "/") ++ codes "/") rest)

-- The test of the code for a path in a scope.
abbrev pub holds : Scope → Text → Bool
holds s p = is_workspace s.kind || text_eq s.path p || (is_directory s.kind && path_within p s.path)

workspace-kind : (k : ScopeKind) → is_workspace k ≡ true → k ≡ ScopeKind.workspace
workspace-kind k h = ground arith

directory-kind : (k : ScopeKind) → is_directory k ≡ true → k ≡ ScopeKind.directory
directory-kind k h = ground arith

pub holds-LiesIn : (s : Scope) (p : Text) → holds s p ≡ true → LiesIn p s
holds-LiesIn s p h = elim (Bool-cases (is_workspace s.kind)) [
  | inl all ↦ inl (workspace-kind s.kind all)
  | inr some_of ↦ elim (Bool-cases (text_eq s.path p)) [
    | inl itself ↦ inr (inl (sym (text_eq_sound s.path p itself)))
    | inr other ↦
        inr
          (inr (directory-kind s.kind (ground arith), path_within-IsBelow p s.path (ground arith)))
  ]
]

pub LiesIn-holds : (s : Scope) (p : Text) → LiesIn p s → holds s p ≡ true
LiesIn-holds s p (inl all) = ground (arith, all)
LiesIn-holds s p (inr (inl itself)) = ground (arith, text_eq_iff s.path p, itself)
LiesIn-holds s p (inr (inr (kind, below))) =
    ground (arith, kind, IsBelow-path_within p s.path below)

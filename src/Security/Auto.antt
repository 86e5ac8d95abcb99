-- ===== src/Security/Auto.antt =====
-- Which shell commands run without a question.
use chronos_code.Base.{
  Text, text_eq, has_text, codes, All, is_empty, trim_space, Bool, true, false, ◌||◌, List, [], ◌∷◌,
  Option-cases, ◌≡◌, refl, arith, inl, inr,
}
use chronos_code.Security.Rules.{SecurityPolicy}
use chronos_code.Security.Shell.{unquoted, filepath_base, fields}
use chronos_code.Security.Command.{
  flags_of, find_interpreter, interpreted_fields, interpreted_segments, skip_env,
  analyze_shell_command, ShellTool, shell, shell_command_allowed, matches_denied_pattern,
  matches_any,
}
use chronos_code.Security.Unbroken.{Unbroken, scan-Unbroken}

find_interpreter-none :
    (command : Text) (fs : List Text)
    → (find_interpreter command fs).1 ≡ false
    → (find_interpreter command fs).0 ≡ []
unfolding find_interpreter
find_interpreter-none command [] h = refl
find_interpreter-none command (f ∷ fs) h = elim (Option-cases (flags_of (filepath_base f))) [
  | inl other ↦ ground (arith, other, find_interpreter-none command fs)
  | inr (flags, given) ↦ absurd (ground (arith, given))
]

interpreted_fields-none :
    (command : Text) (fs : List Text)
    → (interpreted_fields command fs).1 ≡ false
    → (interpreted_fields command fs).0 ≡ []
unfolding interpreted_fields
interpreted_fields-none command [] h = refl
interpreted_fields-none command (f ∷ fs) h =
    ground
      (arith, find_interpreter-none command (skip_env fs), find_interpreter-none command (f ∷ fs))

-- A shell, or an interpreter that takes a program as an argument.
abbrev pub is_interpreter : Text → Bool
is_interpreter name =
    has_text name (
      codes "sh"
      ∷ codes "bash"
      ∷ codes "dash"
      ∷ codes "zsh"
      ∷ codes "ksh"
      ∷ codes "fish"
      ∷ codes "python"
      ∷ codes "python3"
      ∷ [])
    || text_eq name (codes "node")
    || has_text name (codes "ruby" ∷ codes "perl" ∷ [])

-- A command that is not ambiguous is a single one, and its only segment is the whole of it.
pub analyze_shell_command-Unbroken :
    (command : Text)
    → (analyze_shell_command command).ambiguous ≡ false
    → Unbroken unquoted command
      × ((analyze_shell_command command).segments ≡ trim_space command ∷ [])
unfolding analyze_shell_command interpreted_segments
analyze_shell_command-Unbroken command h =
    let (simple, word, kept) = scan-Unbroken command unquoted false [] [] (ground arith) in
    let alone = interpreted_fields-none command (fields command) (ground arith) in
    (simple, ground (arith, word, kept, alone))

-- What holds of a command that runs without a question.
pub record RunsFreely (matches : Text → Text → Bool) (p : SecurityPolicy) (tool : ShellTool)
    (command : Text) (yolo : Bool) : Type 0 where
  pub unbroken : Unbroken unquoted command
  pub no_interpreter :
      (first : Text) (rest : List Text)
      → fields command ≡ first ∷ rest
      → text_eq (filepath_base first) (codes "env") ≡ false
      → All (λ f. is_interpreter (filepath_base f) ≡ false) (first ∷ rest)
  pub not_denied : is_empty command ≡ false → matches_denied_pattern p command ≡ false
  pub not_never : matches_any matches p.never_allow_patterns (trim_space command) ≡ false
  pub allowed : shell_command_allowed p command ≡ true
  pub no_question : matches_any matches p.confirm_patterns command ≡ false
  pub reason : tool ≡ shell → (matches_any matches p.auto_allow_patterns command || yolo) ≡ true

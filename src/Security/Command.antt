-- ===== src/Security/Command.antt =====
-- The decision on a shell command: `CheckContext` of internal/security/permissions.go with
-- `checkShellArgs` and `shellCommandAllowed` of internal/security/security.go. Whether a pattern
-- matches a text as a regular expression is a parameter; a missing command is the empty text.
use mathlib.Core.List.{reverse}
use chronos_code.Base.{
  Text, codes, text_eq, has_text, has_prefix, is_empty, trim_space, to_lower, any, ℕ, Bool, true,
  false, ◌&&◌, ◌||◌, not, List, [], ◌∷◌, ◌++◌, length, leb, take, drop, ◌-◌, if◌then◌else◌, Option,
  none, some,
}
use chronos_code.Security.Rules.{SecurityPolicy}
use chronos_code.Security.Shell.{
  Scan, ShellAnalysis, is_quoted, add_segment, scan, start_scan, filepath_base, fields, after_first,
  has_infix,
}

-- The flags after which an interpreter takes its program.
unfoldable pub flags_of : Text → Option (List Text)
unfolding text_eq
flags_of name =
    if has_text name (
      codes "sh"
      ∷ codes "bash"
      ∷ codes "dash"
      ∷ codes "zsh"
      ∷ codes "ksh"
      ∷ codes "fish"
      ∷ codes "python"
      ∷ codes "python3"
      ∷ [])
    then some (codes "-c" ∷ [])
    else if text_eq name (codes "node")
    then some (codes "-e" ∷ codes "--eval" ∷ [])
    else if has_text name (codes "ruby" ∷ codes "perl" ∷ [])
    then some (codes "-e" ∷ [])
    else none

-- The fields after `env`, its flags and its assignments.
unfoldable pub skip_env : List Text → List Text
skip_env [] = []
skip_env (f ∷ fs) =
    let rest = skip_env fs in
    if has_prefix f (codes "-") || has_infix f (codes "=") then rest else f ∷ fs

abbrev last_is : ℕ → Text → Bool
last_is q t = text_eq (drop (length t - 1) t) (q ∷ [])

-- A program without the quotes round it.
unfoldable pub strip_quotes : Text → Text
unfolding text_eq
strip_quotes t =
    if leb 2 (length t)
      && (has_prefix t (b'\'' ∷ []) && last_is b'\'' t
          || has_prefix t (b'"' ∷ []) && last_is b'"' t)
    then take (length t - 2) (drop 1 t)
    else t

abbrev payload_of : Option Text → List Text
payload_of none = []
payload_of (some t) = strip_quotes (trim_space t) ∷ []

-- The loop over the fields after the interpreter.
unfoldable pub find_payload : Text → List Text → List Text → List Text
find_payload command flags [] = []
find_payload command flags (f ∷ []) = []
find_payload command flags (f ∷ g ∷ fs) =
    let rest = find_payload command flags (g ∷ fs) in
    if has_text f flags then payload_of (after_first f command) else rest

-- The loop over the fields, with whether an interpreter is among them.
unfoldable pub find_interpreter : Text → List Text → List Text × Bool
find_interpreter command [] = ([], false)
find_interpreter command (f ∷ fs) =
    let rest = find_interpreter command fs in
    elim (flags_of (filepath_base f)) [
      | none ↦ rest
      | some flags ↦ (find_payload command flags fs, true)
    ]

-- The start of the loop: behind `env`, what is its own is passed over.
unfoldable pub interpreted_fields : Text → List Text → List Text × Bool
unfolding text_eq
interpreted_fields command [] = ([], false)
interpreted_fields command (f ∷ fs) =
    if text_eq (filepath_base f) (codes "env")
    then find_interpreter command (skip_env fs)
    else find_interpreter command (f ∷ fs)

unfoldable pub interpreted_segments : Text → List Text × Bool
interpreted_segments command = interpreted_fields command (fields command)

-- The segments of the scan, or the whole command where there are none.
abbrev pub scanned_segments : Text → Scan → List Text
scanned_segments command s =
    let segments = add_segment s.segments (reverse s.word) in
    if is_empty segments then trim_space command ∷ [] else segments

unfoldable pub analyze_shell_command : Text → ShellAnalysis
analyze_shell_command command =
    let s = scan command start_scan in
    let (payloads, interpreter) = interpreted_segments command in
    record {
      segments = scanned_segments command s ++ payloads;
      ambiguous = s.compound || (is_quoted s.quote || (s.escaped || interpreter));
    }

pub data Decision : Type 0 where
  auto confirm deny : Decision

pub data ShellTool : Type 0 where
  shell shell_auto : ShellTool

pub data ShellError : Type 0 where
  matches_denied matches_never_allow not_in_allowed : ShellError

abbrev pub first_shell_command : Text → Text
first_shell_command command = first (fields command)
  where
    first : List Text → Text
    first [] = []
    first (f ∷ fs) = f

unfoldable pub shell_command_allowed : SecurityPolicy → Text → Bool
shell_command_allowed p command =
    not p.allowed_commands_set && is_empty p.allowed_commands
    || has_text (first_shell_command command) p.allowed_commands

abbrev pub matches_denied_pattern : SecurityPolicy → Text → Bool
matches_denied_pattern p command =
    any (λ pattern. has_infix (to_lower command) (to_lower pattern)) p.denied_patterns

abbrev requires_allowed : ShellTool → Bool
requires_allowed shell = false
requires_allowed shell_auto = true

module _ (matches : Text → Text → Bool) where
  abbrev pub matches_any : List Text → Text → Bool
  matches_any patterns value = any (λ pattern. matches pattern value) patterns

  -- A never_allow rule matches a segment.
  unfoldable pub refuses_shell_command : SecurityPolicy → Text → Bool
  refuses_shell_command p command =
      any (matches_any p.never_allow_patterns) (analyze_shell_command command).segments

  unfoldable pub check_shell_args : SecurityPolicy → ShellTool → Text → Option ShellError
  check_shell_args p tool command =
      if is_empty command
      then none
      else if matches_denied_pattern p command
      then some matches_denied
      else if refuses_shell_command p command
      then some matches_never_allow
      else if requires_allowed tool && not (shell_command_allowed p command)
      then some not_in_allowed
      else none

  -- The second switch.
  abbrev pub by_default : ShellTool → Bool → Decision
  by_default shell yolo = if yolo then auto else confirm
  by_default shell_auto yolo = auto

  -- `Check` of a call of one of the two shell tools.
  unfoldable pub check_shell : SecurityPolicy → ShellTool → Text → Bool → Decision
  check_shell p tool command yolo = elim (check_shell_args p tool command) [
    | some e ↦ deny
    | none ↦
        if refuses_shell_command p command
        then deny
        else if (analyze_shell_command command).ambiguous
        then confirm
        else if not (shell_command_allowed p command)
        then confirm
        else if matches_any p.confirm_patterns command
        then confirm
        else if matches_any p.auto_allow_patterns command
        then auto
        else by_default tool yolo
  ]

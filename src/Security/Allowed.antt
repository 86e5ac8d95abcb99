-- ===== src/Security/Allowed.antt =====
-- The commands that a policy's list of commands lets through, and a layer's list: shellCommandAllowed
-- of internal/security/security.go over applyOverlay of internal/security/policy.go.
use chronos_code.Base.{
  Text, text_eq_iff, has_text, true, List, [], ◌∷◌, Option, none, some, ok, ◌≡◌, refl, arith,
}
use chronos_code.Security.Rules.{SecurityPolicy, Field, contains}
use chronos_code.Security.Overlay.{narrow_list, set_by}
use chronos_code.Security.Command.{shell_command_allowed, first_shell_command}
use chronos_code.Security.Sets.{narrow_list-IncludedIn}

has_text-contains : (xs : List Text) (t : Text) → has_text t xs ≡ contains xs t
unfolding contains
has_text-contains [] t = refl
has_text-contains (x ∷ xs) t =
    ground (arith, text_eq_iff t x, text_eq_iff x t, has_text-contains xs t)

unset_list :
    (f : Field) (current : List Text) {r : List Text}
    → narrow_list f current none ≡ ok r
    → r ≡ current
unfolding narrow_list
unset_list f current h = ground arith

-- A layer lets no command through that was not let through before.
pub narrowed-shell_command_allowed :
    (p q : SecurityPolicy) (o : Option (List Text)) (command : Text)
    → narrow_list Field.allowed_commands p.allowed_commands o ≡ ok q.allowed_commands
    → q.allowed_commands_set ≡ set_by o p.allowed_commands_set
    → shell_command_allowed q command ≡ true
    → shell_command_allowed p command ≡ true
unfolding shell_command_allowed
narrowed-shell_command_allowed p q none command h set k =
    ground (arith, set, unset_list _ p.allowed_commands h)
narrowed-shell_command_allowed p q (some xs) command h set k =
    let t = first_shell_command command in
    ground (
      arith,
      set,
      has_text-contains q.allowed_commands t,
      has_text-contains p.allowed_commands t,
      narrow_list-IncludedIn _ p.allowed_commands (some xs) h t,
    )

-- Where the list was given, it is what lets a command through, also when it is empty.
pub listed-shell_command_allowed :
    (q : SecurityPolicy) (xs : List Text) (command : Text)
    → q.allowed_commands ≡ xs
    → q.allowed_commands_set ≡ true
    → shell_command_allowed q command ≡ true
    → has_text (first_shell_command command) xs ≡ true
unfolding shell_command_allowed
listed-shell_command_allowed q xs command e set k = ground (arith, e, set)

-- ===== src/Examples/Commands.antt =====
-- Shell commands: one that runs freely, and a forbidden one behind another.
use chronos_code.Base.{
  Text, codes, text_eq, has_prefix, trim_space, trim_left, trim_right, Bool, true, [], ◌∷◌, ◌≡◌,
  refl,
}
use chronos_code.Security.Shell.{
  unquoted, filepath_base, fields_from, after_first, scan, scan_rune, scan_unquoted, scan_quoted,
  matching_paren,
}
use chronos_code.Security.Command.{
  flags_of, strip_quotes, find_payload, find_interpreter, interpreted_fields, interpreted_segments,
  analyze_shell_command, deny, shell, check_shell,
}
use chronos_code.Security.Unbroken.{Unbroken, ended, plain}
use chronos_code.Security.Pieces.{check_shell-deny}
use chronos_code.Examples.Securities.{resolved}

-- A pattern matches the texts that begin with it.
abbrev begins : Text → Text → Bool
begins pattern value = has_prefix value pattern

-- `rm` is never allowed, `go` is the one allowed command, and `git` is asked about.
abbrev go_test : Text
go_test = codes "go \"x;y\""

nested_run :
    (analyze_shell_command (codes "a $(b c) | sh -c 'd e'")).segments
    ≡ codes "b c" ∷ codes "a $(b c)" ∷ codes "sh -c 'd e'" ∷ codes "d e" ∷ []
unfolding analyze_shell_command trim_space scan scan_rune scan_unquoted scan_quoted matching_paren
    interpreted_segments interpreted_fields fields_from filepath_base find_interpreter flags_of
    find_payload after_first has_prefix strip_quotes
nested_run = refl

ls-Unbroken : Unbroken unquoted (codes "ls")
ls-Unbroken = plain b'l' (codes "s") refl (plain b's' [] refl ended)

rm-Unbroken : Unbroken unquoted (codes " rm")
rm-Unbroken = plain b' ' (codes "rm") refl (plain b'r' (codes "m") refl (plain b'm' [] refl ended))

check_shell-deny_example : check_shell begins resolved shell (codes "ls; rm") true ≡ deny
unfolding text_eq trim_space trim_left trim_right has_prefix
check_shell-deny_example =
    check_shell-deny begins resolved shell true ((codes "ls", b';') ∷ []) (codes " rm")
      (codes " rm") ((ls-Unbroken, refl), tt) rm-Unbroken refl refl refl

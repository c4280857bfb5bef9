-- ===== src/Tests/Safety.antt =====
-- Runs of the safety rails.
use sshw.Base.{
  true, codes, [], ◌∷◌, ◌≡◌, ◌↔◌, refl, split_once, text_eq, text_dec, is_whitespace,
  is_path_separator, last_part,
}
use sshw.Safety.Shell.{char_class, is_assignment_prefix, is_command_prefix_word}
use sshw.Safety.Shell.Positions.{RunsSudo}
use sshw.Safety.Tokens.{has_rm_recursive_force}
use sshw.Safety.Hazards.{RemovesForced, has_rm_recursive_force-RemovesForced}

runs_sudo : RunsSudo (codes "sudo id")
runs_sudo =
    RunsSudo.first _ b's' (codes "udo") (codes "id") b' '
      (unfold char_class is_whitespace in (refl, (refl, (refl, (refl, tt)))))
      (unfold is_assignment_prefix is_command_prefix_word split_once text_eq text_dec in refl)
      (unfold last_part is_path_separator in refl) (unfold char_class is_whitespace in refl) refl

has_rm_recursive_force-RemovesForced_example :
    (has_rm_recursive_force (codes "rm" ∷ codes "-rf" ∷ codes "/" ∷ []) ≡ true)
    ↔ RemovesForced (codes "rm" ∷ codes "-rf" ∷ codes "/" ∷ [])
has_rm_recursive_force-RemovesForced_example =
    has_rm_recursive_force-RemovesForced (codes "rm" ∷ codes "-rf" ∷ codes "/" ∷ [])

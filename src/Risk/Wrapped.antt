-- ===== src/Risk/Wrapped.antt =====
-- A command behind assignments and wrappers, called as their manuals say, against analyzeSegment.
use ssh_gate_oss.Base.{◌≡◌, refl, false, [], ◌∷◌}
use ssh_gate_oss.Text.{Text, codes, text_eq, base, contains, has_prefix}
use ssh_gate_oss.Risk.Level.{Risk, medium, high, raise}
use ssh_gate_oss.Risk.Words.{Words, is_assignment, is_number}
use ssh_gate_oss.Risk.Wrappers.{
  find_wrapper, finish_wrapper, peel_long, peel_cluster, peel_word, peel_wrapper_options,
}
use ssh_gate_oss.Risk.Commands.{destructive_command, read_only_command}
use ssh_gate_oss.Risk.Segment.{
  drop_assignments, analyze_segment, elevates, judge, run_wrappers, has_glob,
}

-- An assignment that sudo takes in front of the command hides the command: an rm with any arguments is
-- High behind sudo, and Medium behind sudo and `A=1`. Behind time and `A=1` any sudo goes unreported.
pub assignment_hides_command :
    (args : Words)
    → ((analyze_segment (codes "sudo" ∷ codes "rm" ∷ args)).risk ≡ high)
      × ((analyze_segment (codes "sudo" ∷ codes "A=1" ∷ codes "rm" ∷ args)).risk ≡ medium)
      × ((analyze_segment (codes "time" ∷ codes "A=1" ∷ codes "sudo" ∷ args)).uses_sudo ≡ false)
unfolding text_eq contains base raise destructive_command read_only_command is_assignment is_number
    find_wrapper finish_wrapper peel_long peel_cluster peel_word peel_wrapper_options elevates
    has_glob judge run_wrappers drop_assignments analyze_segment has_prefix
assignment_hides_command [] = (refl, refl, refl)
assignment_hides_command (v ∷ args) = (refl, refl, refl)

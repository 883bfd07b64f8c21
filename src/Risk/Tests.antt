-- ===== src/Risk/Tests.antt =====
-- The classifier on commands of the kinds in risk_test.go.
use ssh_gate_oss.Base.{◌≡◌, refl, true, false, [], ◌∷◌, ◌++◌, All, arith}
use ssh_gate_oss.Text.{
  Text, texts, codes, text_eq, contains, base, fields, replace, trim_space, lookup, has_prefix,
}
use ssh_gate_oss.Risk.Level.{low, medium, high, raise}
use ssh_gate_oss.Risk.Commands.{read_only_command, destructive_command}
use ssh_gate_oss.Risk.Words.{Words, is_assignment, is_number, is_duration}
use ssh_gate_oss.Risk.Wrappers.{
  find_wrapper, finish_wrapper, peel_long, peel_cluster, peel_word, peel_wrapper_options,
}
use ssh_gate_oss.Risk.Segment.{
  elevates, has_glob, judge, run_wrappers, drop_assignments, analyze_segment,
}
use ssh_gate_oss.Risk.Command.{
  Unicode, opaque_fields, odd_space, lone_ampersand, opaque_command, segments_from, split_segments,
  combine, analyze_segments, analyze_command, classify_risk, command_uses_sudo,
}
use ssh_gate_oss.Risk.Wrapping.{Covers}
use ssh_gate_oss.Risk.Rounds.{Loop, run_wrappers-Loop}
use ssh_gate_oss.Risk.Wrapped.{assignment_hides_command}
use ssh_gate_oss.Risk.Combination.{IsPlain, classify_risk_low_iff, segments_covered}
use ssh_gate_oss.Risk.Separators.{split_segments-append}

-- Unfolding this name lets the whole classifier run.
abbrev runs : Unit {0}
unfolding text_eq contains lookup has_prefix is_duration base fields replace trim_space raise
    read_only_command destructive_command is_assignment is_number find_wrapper finish_wrapper
    peel_long peel_cluster peel_word peel_wrapper_options elevates has_glob judge run_wrappers
    drop_assignments analyze_segment opaque_fields odd_space lone_ampersand opaque_command
    segments_from split_segments combine analyze_segments analyze_command classify_risk
    command_uses_sudo
runs = tt

-- Tables that hold for ASCII and for Japanese letters.
abbrev plain_tables : Unicode
plain_tables = record {
  is_print = λ c. true;
  is_format = λ c. false;
  is_mark = λ c. false;
  to_lower = λ c. c;
}

list_is_low : classify_risk plain_tables (codes "ls -la /tmp | grep x 2>/dev/null") ≡ low
unfolding runs
list_is_low = refl

restart_is_high :
    classify_risk plain_tables (codes "uptime; sudo -u root systemctl restart nginx") ≡ high
unfolding runs
restart_is_high = refl

env_sudo_elevates : command_uses_sudo plain_tables (codes "env A=1 nice -5 sudo apt update") ≡ true
unfolding runs
env_sudo_elevates = refl

quoting_is_high : classify_risk plain_tables (codes "echo 'x'") ≡ high
unfolding runs
quoting_is_high = refl

install_is_medium : classify_risk plain_tables (codes "apt install nginx") ≡ medium
unfolding runs
install_is_medium = refl

abbrev piped : Text
piped = codes "ls -la | wc -l"

classify_risk_low_iff_example : All IsPlain (split_segments (trim_space piped))
unfolding runs
classify_risk_low_iff_example = ((classify_risk_low_iff plain_tables piped).0 refl).2

segments_covered_example :
    All
      (λ s. Covers (analyze_segment s) (analyze_command plain_tables piped))
      (split_segments (trim_space piped))
segments_covered_example = segments_covered plain_tables piped

split_segments-append_example :
    split_segments (codes "uptime;rm -rf x")
    ≡ split_segments (codes "uptime") ++ split_segments (codes "rm -rf x")
split_segments-append_example = split_segments-append (codes "uptime") (codes "rm -rf x")

abbrev wrapped_rm : Words
wrapped_rm = texts ("A=1" ∷ "nice" ∷ "-5" ∷ "sudo" ∷ "-n" ∷ "rm" ∷ "x" ∷ [])

-- Two wrappers with options of each form, and timeout with its duration.
abbrev wrapped_args : Words
wrapped_args = texts (
    "nice" ∷ "-n" ∷ "5" ∷ "sudo" ∷ "--user=root" ∷ "-nEH" ∷ "-nu" ∷ "root" ∷ "-uroot" ∷ "-n"
    ∷ "timeout" ∷ "-k" ∷ "5" ∷ "1m" ∷ "rm" ∷ "x" ∷ [])

assignment_hides_command_example :
    ((analyze_segment (texts ("sudo" ∷ "rm" ∷ "x" ∷ []))).risk ≡ high)
    × ((analyze_segment (texts ("sudo" ∷ "A=1" ∷ "rm" ∷ "x" ∷ []))).risk ≡ medium)
    × ((analyze_segment (texts ("time" ∷ "A=1" ∷ "sudo" ∷ "x" ∷ []))).uses_sudo ≡ false)
assignment_hides_command_example = assignment_hides_command (texts ("x" ∷ []))

run_wrappers-Loop_example : Loop low false wrapped_rm (run_wrappers 7 low false wrapped_rm)
run_wrappers-Loop_example = run_wrappers-Loop 7 low false wrapped_rm (omega arith)

-- ===== src/Session/LineTests.antt =====
-- The classifier of session lines on concrete lines, and the settings.
use ssh_gate_oss.Text.{texts}
use ssh_gate_oss.Session.Settings.{
  Settings, default_settings, clean_ids, validate_settings, Unrepeated, IsInRange,
  validate_settings-IsInRange,
}
use ssh_gate_oss.Base.{
  ◌≡◌, ◌≢◌, refl, true, false, [], ◌∷◌, leb, ◌-◌, map, if◌then◌else◌, ◌&&◌, not, is_empty,
}
use ssh_gate_oss.Text.{
  Text, codes, text_eq, contains, lookup, is_space, trim_left, trim_right, trim, trim_space,
  fields_from, fields, has_prefix, trim_prefix_char, trim_suffix_char, has_char, contains_any, cut,
  first_match, replace_from, replace, after_slash, base, has_infix, text_lt,
}
use ssh_gate_oss.Risk.Level.{low, high, raise}
use ssh_gate_oss.Risk.Words.{
  is_assignment, is_number, is_duration, arg_matches, has_arg, has_arg_prefix, cluster_has,
  has_short_flag, first_operand, non_options,
}
use ssh_gate_oss.Risk.Wrappers.{
  find_wrapper, finish_wrapper, peel_cluster, peel_long, peel_word, peel_wrapper_options,
}
use ssh_gate_oss.Risk.Commands.{
  date_step, date_sets_clock, ip_operands, read_only_ip, read_only_command, destructive_command,
}
use ssh_gate_oss.Risk.Segment.{
  elevates, has_glob, judge, run_wrappers, drop_assignments, analyze_segment,
}
use ssh_gate_oss.Risk.Command.{
  Unicode, odd_space, lone_ampersand, invisible_rune, opaque_rune, opaque_fields, opaque_command,
  segments_from, split_segments, combine, analyze_segments, analyze_command, classify_risk,
  command_uses_sudo,
}
use ssh_gate_oss.Session.Names.{
  has_prefix_of, is_prompt_name, session_env_name_class, all_safe, env_overlay_unsafe,
  valid_env_name, plain_env_value, split_at, parse_assignments, standalone_cd, all_names_valid,
  standalone_env,
}
use ssh_gate_oss.Session.Scan.{
  unquote_word, command_word, assignment_name, session_array_base, blank_single_quoted,
  expands_history, history_expansion, printf_assigns, operand_names, session_var_assignments,
  split_from, drop_reserved, is_wrapper_word, any_dangerous, lead_command, lead_option, lead,
  declared_names, scan_command, scan_chunk, scan_chunks, scan_session_commands,
}
use ssh_gate_oss.Session.Classify.{
  Mode, exec, shell, RiskState, LineClass, state_change_effect, add_reason, raise_class,
  form_of_words, form_of, base_class, with_session_floor, raise_for, raise_for_names, cd_class,
  env_class, command_class, class_of_form, classify_session_line, normalize_session_bypass_max_risk,
  session_needs_approval,
}
use ssh_gate_oss.Session.Line.{
  byte_length, index_char, ansi_end, step_quoted, step_dollar, step_operator, step_code, lex_step,
  lex, scan_session_line, has_line_end, has_control, validate_session_line,
}
use ssh_gate_oss.Table.{put}
use ssh_gate_oss.Session.Raises.{Mild, unapproved_line-Mild}

-- Unfolding this name lets the classifier run.
abbrev runs : Unit {0}
unfolding text_eq contains lookup is_space trim_left trim_right trim trim_space fields_from fields
    has_prefix trim_prefix_char trim_suffix_char has_char contains_any cut first_match replace_from
    replace after_slash base has_infix text_lt raise is_assignment is_number is_duration arg_matches
    has_arg has_arg_prefix cluster_has has_short_flag first_operand non_options find_wrapper
    finish_wrapper peel_cluster peel_long peel_word peel_wrapper_options date_step date_sets_clock
    ip_operands read_only_ip read_only_command destructive_command elevates has_glob judge
    run_wrappers drop_assignments analyze_segment odd_space lone_ampersand invisible_rune
    opaque_rune opaque_fields opaque_command segments_from split_segments combine analyze_segments
    analyze_command classify_risk command_uses_sudo has_prefix_of is_prompt_name
    session_env_name_class all_safe env_overlay_unsafe valid_env_name plain_env_value split_at
    parse_assignments standalone_cd all_names_valid standalone_env unquote_word command_word
    assignment_name session_array_base blank_single_quoted expands_history history_expansion
    printf_assigns operand_names session_var_assignments split_from drop_reserved is_wrapper_word
    any_dangerous lead_command lead_option lead declared_names scan_command scan_chunk scan_chunks
    scan_session_commands add_reason raise_class form_of_words form_of base_class with_session_floor
    raise_for raise_for_names cd_class env_class command_class class_of_form classify_session_line
    normalize_session_bypass_max_risk session_needs_approval byte_length index_char ansi_end
    step_quoted step_dollar step_operator step_code lex_step lex scan_session_line has_line_end
    has_control validate_session_line put
runs = tt

abbrev ascii_upper : Text → Text
ascii_upper = map (λ c. if leb 97 c && leb c 122 then c - 32 else c)

abbrev tables : Unicode
tables = record {
  is_print = λ c. true;
  is_format = λ c. false;
  is_mark = λ c. false;
  to_lower = λ c. c;
}

abbrev clean : Mode → RiskState
clean mode = record { mode = mode; env = []; tainted = false }

abbrev class_of : Mode → Text → LineClass
class_of mode line = classify_session_line ascii_upper tables (λ s. false) line (clean mode)

alias_changes_state : (class_of shell (codes "alias ls=rm")).effect ≡ state_change_effect
unfolding runs
alias_changes_state = refl

cd_is_low : (class_of exec (codes "cd /srv/www")).risk ≡ low
unfolding runs
cd_is_low = refl

path_is_high : (class_of exec (codes "export PATH=/tmp/bin")).risk ≡ high
unfolding runs
path_is_high = refl

background_is_high : (class_of exec (codes "nohup sleep 9")).risk ≡ high
unfolding runs
background_is_high = refl

uptime_needs_none :
    session_needs_approval ascii_upper (clean shell) (class_of shell (codes "uptime")) (codes "Low")
    ≡ false
unfolding runs
uptime_needs_none = refl

unapproved_line-Mild_example :
    (false ≡ false)
    × ((class_of shell (codes "uptime")).effect ≢ state_change_effect)
    × Mild ascii_upper tables
        (clean shell)
        (codes "Low")
        (trim_space (codes "uptime"))
        (form_of tables (trim_space (codes "uptime")))
unapproved_line-Mild_example =
    unapproved_line-Mild ascii_upper tables (λ s. false) (codes "uptime") (clean shell)
      (codes "Low") uptime_needs_none

abbrev given : Settings
given = record default_settings { shell_conn_ids = texts (" c1" ∷ "c2" ∷ "c1 " ∷ " " ∷ []) }

abbrev cleaned : Settings
cleaned = record default_settings { shell_conn_ids = texts ("c1" ∷ "c2" ∷ []) }

given_accepted : validate_settings given ≡ (cleaned, [])
unfolding runs clean_ids validate_settings
given_accepted = refl

validate_settings-IsInRange_example :
    IsInRange cleaned
    × (cleaned ≡ record given { shell_conn_ids = cleaned.shell_conn_ids })
    × Unrepeated cleaned.shell_conn_ids
    × ((x : Text)
        → contains cleaned.shell_conn_ids x
          ≡ (not (is_empty x) && contains (map trim_space given.shell_conn_ids) x))
validate_settings-IsInRange_example = validate_settings-IsInRange given cleaned given_accepted

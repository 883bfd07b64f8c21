-- ===== src/Session/Scan.antt =====
-- The words in command position of a session line: scanSessionCommands, sessionVarAssignments and
-- historyExpansion of ai_session_approval.go with their helpers. What the regular expression
-- sessionFuncDef matches is the argument `func_def`. blankSingleQuoted writes one x for a character,
-- where the code writes one for each of its bytes.
use ssh_gate_oss.Base.{
  ℕ, Bool, true, false, not, ◌&&◌, ◌||◌, List, [], ◌∷◌, Option, none, some, if◌then◌else◌, is_empty,
  ◌==◌, drop,
}
use ssh_gate_oss.Text.{
  Text, codes, texts, text_eq, contains, contains_any, has_prefix, has_char, fields, cut, replace,
  after_slash, trim_suffix_char, trim_space,
}
use ssh_gate_oss.Risk.Words.{Words, is_assignment, is_duration, is_number, has_arg_prefix}
use ssh_gate_oss.Risk.Wrappers.{WrapperSpec, find_wrapper}
use ssh_gate_oss.Session.Names.{session_env_name_class, is_dangerous}

-- sessionStateBuiltins.
abbrev pub session_state_builtins : Words
session_state_builtins = texts (
    "alias" ∷ "unalias" ∷ "set" ∷ "shopt" ∷ "trap" ∷ "enable" ∷ "builtin" ∷ "hash" ∷ "bind"
    ∷ "complete" ∷ "compopt" ∷ "declare" ∷ "typeset" ∷ "readonly" ∷ "local" ∷ "stty" ∷ "ulimit"
    ∷ "umask" ∷ "pushd" ∷ "popd" ∷ "exec" ∷ "source" ∷ "." ∷ "eval" ∷ "let" ∷ "function" ∷ "fc"
    ∷ "history" ∷ [])

-- sessionDetaching.
abbrev pub session_detaching : Words
session_detaching =
    texts ("setsid" ∷ "disown" ∷ "screen" ∷ "tmux" ∷ "at" ∷ "batch" ∷ "systemd-run" ∷ "nohup" ∷ [])

-- sessionReservedWords.
abbrev pub session_reserved_words : Words
session_reserved_words = texts (
    "if" ∷ "then" ∷ "else" ∷ "elif" ∷ "fi" ∷ "do" ∷ "done" ∷ "while" ∷ "until" ∷ "for" ∷ "in"
    ∷ "case" ∷ "esac" ∷ "!" ∷ "time" ∷ "select" ∷ "coproc" ∷ "[[" ∷ "]]" ∷ [])

-- sessionVarDeclarers.
abbrev pub session_var_declarers : Words
session_var_declarers = texts ("export" ∷ "declare" ∷ "typeset" ∷ "readonly" ∷ "local" ∷ [])

-- unquoteWord.
unfoldable pub unquote_word : Text → Text
unquote_word [] = []
unquote_word (c ∷ s) =
    let rest = unquote_word s in if c == b'\'' || c == b'"' || c == b'\\' then rest else c ∷ rest

-- commandWord.
unfoldable pub command_word : Text → Text
command_word w =
    let w' = unquote_word w in let tail = after_slash w' in if is_empty tail then w' else tail

-- assignmentName.
unfoldable pub assignment_name : Text → Text
assignment_name w =
    let (name, found) = cut w b'=' in if found then trim_suffix_char b'+' name else w

-- sessionArrayBase.
unfoldable pub session_array_base : Text → Text
session_array_base n =
    let (name, found) = cut n b'[' in if found && not (is_empty name) then name else n

-- blankSingleQuoted, inside or outside quotes.
unfoldable pub blank_single_quoted : Bool → Text → Text
blank_single_quoted inside [] = []
blank_single_quoted inside (c ∷ s) =
    (if c == b'\'' then c else if inside then b'x' else c)
    ∷ blank_single_quoted (if c == b'\'' then not inside else inside) s

-- The loop of historyExpansion behind the byte `prev`.
unfoldable pub expands_history : ℕ → Text → Bool
expands_history prev [] = false
expands_history prev (c ∷ []) = false
expands_history prev (c ∷ d ∷ s) =
    (c == b'!' && not (prev == b'$') && not (has_char (b' ' ∷ 9 ∷ b'=' ∷ b'(' ∷ b'"' ∷ []) d))
    || expands_history c (d ∷ s)

-- historyExpansion.
unfoldable pub history_expansion : Text → Bool
history_expansion line =
    has_prefix (trim_space line) (codes "^") || expands_history 0 (blank_single_quoted false line)

-- The loop over the arguments of printf: `none` if it assigns nothing.
unfoldable pub printf_assigns : Words → Option Words
printf_assigns [] = none
printf_assigns (a ∷ args) =
    let a' = unquote_word a in
    let rest = printf_assigns args in
    if text_eq a' (codes "--") || not (has_prefix a' (codes "-"))
    then none
    else if text_eq a' (codes "-v")
    then some (elim args [ [] ↦ [] | n ∷ _ ↦ session_array_base (unquote_word n) ∷ [] ])
    else if has_prefix a' (codes "-v")
    then some (session_array_base (drop 2 a') ∷ [])
    else rest

unfoldable pub operand_names : Words → Words
operand_names [] = []
operand_names (a ∷ args) =
    let a' = unquote_word a in
    let rest = operand_names args in
    if is_empty a' || has_prefix a' (codes "-") then rest else session_array_base a' ∷ rest

-- sessionVarAssignments.
unfoldable pub session_var_assignments : Text → Words → Option Words
session_var_assignments name args =
    if text_eq name (codes "printf")
    then printf_assigns args
    else if contains (texts ("read" ∷ "mapfile" ∷ "readarray" ∷ "getopts" ∷ [])) name
    then some (operand_names args)
    else none

-- The replacer of scanSessionCommands.
abbrev pub session_separators : List (Text × Text)
session_separators =
    (codes "$(", codes " ; ")
    ∷ (codes "${", codes " ; ")
    ∷ (codes "&&", codes " ; ")
    ∷ (codes "||", codes " ; ")
    ∷ (codes ";", codes " ; ")
    ∷ (codes "|", codes " ; ")
    ∷ (codes "&", codes " ; ")
    ∷ (codes "(", codes " ; ")
    ∷ (codes ")", codes " ; ")
    ∷ (codes "{", codes " ; ")
    ∷ (codes "}", codes " ; ")
    ∷ (codes "`", codes " ; ")
    ∷ []

-- strings.Split at a semicolon: the first part and the later ones.
unfoldable pub split_from : Text → Text × List Text
split_from [] = ([], [])
split_from (c ∷ s) =
    let (part, later) = split_from s in if c == b';' then ([], part ∷ later) else (c ∷ part, later)

unfoldable pub drop_reserved : Words → Words
drop_reserved [] = []
drop_reserved (w ∷ ws) =
    let rest = drop_reserved ws in if contains session_reserved_words w then rest else w ∷ ws

-- What scanSessionCommands finds.
pub record Scan : Type 0 where
  pub state_change : Bool
  pub detaches : Bool
  pub dangerous_env : Bool
  pub has_cd : Bool

abbrev pub nothing_found : Scan
nothing_found = record {
  state_change = false;
  detaches = false;
  dangerous_env = false;
  has_cd = false;
}

-- Where the loop over assignments and wrappers stands.
pub data Position : Type 0 where
  at_command : Position
  in_options skipping : Text → WrapperSpec → Position

-- What stands before the command.
pub record Lead : Type 0 where
  pub assigned : Bool
  pub wrapped : Bool
  pub lead_detaches : Bool
  pub lead_dangerous : Bool

pub data LeadStep : Type 0 where
  command_here : Lead → LeadStep
  further : Position → Lead → LeadStep

-- An option or an operand that the wrapper `name` takes before the command.
unfoldable pub is_wrapper_word : Text → Text → Bool
is_wrapper_word name w =
    has_prefix w (codes "-")
    || (text_eq name (codes "env") && is_assignment w)
    || (text_eq name (codes "timeout") && is_duration w)
    || (text_eq name (codes "nice") && is_number w)

module _ (to_upper : Text → Text) where
  abbrev pub names_dangerous : Text → Bool
  names_dangerous n = is_dangerous (session_env_name_class to_upper n)

  unfoldable pub any_dangerous : Words → Bool
  any_dangerous [] = false
  any_dangerous (n ∷ ns) = names_dangerous n || any_dangerous ns

  -- The loop's body at a word in command position.
  unfoldable pub lead_command : Lead → Text → LeadStep
  lead_command f w =
      let name = command_word w in
      let f' = record f { lead_detaches = f.lead_detaches || contains session_detaching name } in
      if is_assignment w
      then further at_command (record f {
        assigned = true;
        lead_dangerous = f.lead_dangerous || names_dangerous (assignment_name w);
      })
      else elim (find_wrapper name) [
        | none ↦ command_here f'
        | some spec ↦ further (in_options name spec) (record f' { wrapped = true })
      ]

  -- The body at a word behind a wrapper; the flag says that a word follows.
  unfoldable pub lead_option : Lead → Text → WrapperSpec → Text → Bool → LeadStep
  lead_option f name spec w more =
      if is_wrapper_word name w
      then further
          (if not (has_char w b'=') && contains spec.args w && more
            then skipping name spec
            else in_options name spec)
          (record f {
            lead_dangerous =
                f.lead_dangerous
                || (text_eq name (codes "env")
                    && is_assignment w
                    && names_dangerous (assignment_name w));
          })
      else lead_command f w

  abbrev lead_step : Position → Lead → Text → Words → LeadStep
  lead_step at_command f w ws = lead_command f w
  lead_step (in_options name spec) f w ws = lead_option f name spec w (not (is_empty ws))
  lead_step (skipping name spec) f w ws = further (in_options name spec) f

  -- The loop over assignments and wrappers: what it found, and the command's words.
  unfoldable pub lead : Position → Lead → Words → Lead × Words
  lead p f [] = (f, [])
  lead p f (w ∷ ws) = elim (lead_step p f w ws) [
    | command_here f' ↦ (f', w ∷ ws)
    | further p' f' ↦ lead p' f' ws
  ]

  -- The names that export, declare and the like are given.
  unfoldable pub declared_names : Words → Words
  declared_names [] = []
  declared_names (a ∷ args) =
      let a' = unquote_word a in
      let rest = declared_names args in
      if is_empty a' || has_prefix a' (codes "-") then rest else assignment_name a' ∷ rest

  abbrev or_nothing : Option Words → Words
  or_nothing none = []
  or_nothing (some ns) = ns

  abbrev is_given : Option Words → Bool
  is_given none = false
  is_given (some ns) = true

  -- What a command with its arguments does to the shell.
  unfoldable pub scan_command : Bool → Text → Words → Scan
  scan_command shell name args =
      let declared = if contains session_var_declarers name then declared_names args else [] in
      let assigns = session_var_assignments name args in
      record {
        state_change =
            (shell && not (is_empty declared))
            || (shell && is_given assigns)
            || (not (contains session_detaching name)
                && (contains session_state_builtins name
                    || (text_eq name (codes "export") && has_arg_prefix args (codes "-" ∷ []))
                    || (text_eq name (codes "unset") && has_arg_prefix args (codes "-f" ∷ []))
                    || (shell && contains_any name (codes "$`"))));
        detaches = contains session_detaching name;
        dangerous_env = any_dangerous declared || any_dangerous (or_nothing assigns);
        has_cd = contains (texts ("cd" ∷ "pushd" ∷ "popd" ∷ [])) name;
      }

  abbrev scan_words : Bool → Lead → Words → Scan
  scan_words shell f [] = record nothing_found {
    state_change = shell && f.assigned && not f.wrapped;
  }
  scan_words shell f (raw ∷ args) =
      let name = command_word raw in
      if is_empty name then nothing_found else scan_command shell name args

  -- The body of the loop over the chunks of the line.
  unfoldable pub scan_chunk : Bool → Text → Scan
  scan_chunk shell chunk =
      let (f, words) =
        lead at_command
          (record {
            assigned = false;
            wrapped = false;
            lead_detaches = false;
            lead_dangerous = false;
          })
          (drop_reserved (fields chunk)) in
      let s = scan_words shell f words in
      record s {
        detaches = s.detaches || f.lead_detaches;
        dangerous_env = s.dangerous_env || f.lead_dangerous;
      }

  unfoldable pub scan_chunks : Bool → List Text → Scan
  scan_chunks shell [] = nothing_found
  scan_chunks shell (c ∷ cs) =
      let s = scan_chunk shell c in
      let t = scan_chunks shell cs in
      record {
        state_change = s.state_change || t.state_change;
        detaches = s.detaches || t.detaches;
        dangerous_env = s.dangerous_env || t.dangerous_env;
        has_cd = s.has_cd || t.has_cd;
      }

  -- scanSessionCommands.
  unfoldable pub scan_session_commands : (Text → Bool) → Text → Bool → Scan
  scan_session_commands func_def line shell =
      let blanked = blank_single_quoted false line in
      let (part, later) = split_from (replace session_separators blanked) in
      let s = scan_chunks shell (part ∷ later) in
      record s { state_change = s.state_change || func_def blanked }

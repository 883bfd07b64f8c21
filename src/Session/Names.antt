-- ===== src/Session/Names.antt =====
-- The names of environment variables and the two forms of a line that the gateway runs itself:
-- sessionEnvNameClass, envOverlayUnsafe, standaloneCd, standaloneEnv, parseAssignments, validEnvName
-- and plainEnvValue of ai_session_approval.go. strings.ToUpper is the argument `to_upper`.
use ssh_gate_oss.Base.{
  ℕ, Bool, true, false, not, ◌&&◌, ◌||◌, List, [], ◌∷◌, Option, none, some, if◌then◌else◌, is_empty,
  leb, ◌==◌,
}
use ssh_gate_oss.Text.{Text, codes, texts, text_eq, contains, contains_any, has_prefix}
use ssh_gate_oss.Table.{put}
use ssh_gate_oss.Risk.Words.{Words, is_digit}

pub data NameClass : Type 0 where
  safe dangerous other : NameClass

abbrev pub is_safe : NameClass → Bool
is_safe safe = true
is_safe _ = false

abbrev pub is_dangerous : NameClass → Bool
is_dangerous dangerous = true
is_dangerous _ = false

-- sessionSafeEnv.
abbrev pub session_safe_env : Words
session_safe_env = texts ("LANG" ∷ "TZ" ∷ "NO_COLOR" ∷ "COLUMNS" ∷ "LINES" ∷ "TERM" ∷ [])

-- sessionDangerousEnv.
abbrev pub session_dangerous_env : Words
session_dangerous_env = texts (
    "PATH" ∷ "BASH_ENV" ∷ "ENV" ∷ "PROMPT_COMMAND" ∷ "IFS" ∷ "CDPATH" ∷ "SHELLOPTS" ∷ "BASHOPTS"
    ∷ "HISTFILE" ∷ "PAGER" ∷ "MANPAGER" ∷ "EDITOR" ∷ "VISUAL" ∷ "LESSOPEN" ∷ "LESSCLOSE" ∷ "RUBYOPT"
    ∷ "NODE_OPTIONS" ∷ "SSH_ASKPASS" ∷ "SUDO_ASKPASS" ∷ "TMPDIR" ∷ "HOME" ∷ "XDG_CONFIG_HOME"
    ∷ "ZDOTDIR" ∷ "GCONV_PATH" ∷ "LOCPATH" ∷ "NLSPATH" ∷ "TERMINFO" ∷ "TERMINFO_DIRS" ∷ "INPUTRC"
    ∷ [])

-- sessionDangerousEnvPrefixes.
abbrev pub session_dangerous_env_prefixes : Words
session_dangerous_env_prefixes =
    texts ("LD_" ∷ "DYLD_" ∷ "GIT_" ∷ "PYTHON" ∷ "PERL5" ∷ "BASH_FUNC_" ∷ "LESS" ∷ [])

unfoldable pub has_prefix_of : Text → Words → Bool
unfolding has_prefix
has_prefix_of s [] = false
has_prefix_of s (p ∷ ps) = has_prefix s p || has_prefix_of s ps

-- PS0 to PS4.
unfoldable pub is_prompt_name : Text → Bool
is_prompt_name (p ∷ s ∷ d ∷ []) = p == b'P' && s == b'S' && leb b'0' d && leb d b'4'
is_prompt_name _ = false

module _ (to_upper : Text → Text) where
  -- sessionEnvNameClass.
  unfoldable pub session_env_name_class : Text → NameClass
  session_env_name_class name =
      let upper = to_upper name in
      if contains session_dangerous_env upper
      then dangerous
      else if has_prefix_of upper session_dangerous_env_prefixes
      then dangerous
      else if is_prompt_name upper
      then dangerous
      else if contains session_safe_env name || has_prefix name (codes "LC_")
      then safe
      else other

  -- Every name is safe.
  unfoldable pub all_safe : Words → Bool
  all_safe [] = true
  all_safe (n ∷ ns) = is_safe (session_env_name_class n) && all_safe ns

-- The names of an overlay.
abbrev pub names_of : List (Text × Text) → Words
names_of [] = []
names_of ((n, v) ∷ env) = n ∷ names_of env

-- envOverlayUnsafe.
unfoldable pub env_overlay_unsafe : (Text → Text) → List (Text × Text) → Bool
env_overlay_unsafe to_upper env = not (all_safe to_upper (names_of env))

abbrev is_name_start : ℕ → Bool
is_name_start r = r == b'_' || (leb b'A' r && leb r b'Z') || (leb b'a' r && leb r b'z')

name_tail : Text → Bool
name_tail [] = true
name_tail (r ∷ s) = (is_name_start r || is_digit r) && name_tail s

-- validEnvName.
unfoldable pub valid_env_name : Text → Bool
unfolding name_tail
valid_env_name [] = false
valid_env_name (r ∷ s) = is_name_start r && name_tail s

-- plainEnvValue.
unfoldable pub plain_env_value : Text → Bool
plain_env_value v = not (contains_any v (codes "~*?[]"))

-- The texts before and behind a character.
unfoldable pub split_at : Text → ℕ → Option (Text × Text)
split_at [] d = none
split_at (c ∷ s) d =
    let rest = split_at s d in
    if c == d then some ([], s) else (elim rest [ none ↦ none | some (a, b) ↦ some (c ∷ a, b) ])

-- parseAssignments, from the entries `set` on.
unfoldable pub parse_assignments : List (Text × Text) → Words → Option (List (Text × Text))
parse_assignments set [] = some set
parse_assignments set (w ∷ ws) = elim (split_at w b'=') [
  | none ↦ none
  | some (name, value) ↦
      let rest = parse_assignments (put name value set) ws in
      if valid_env_name name && plain_env_value value then rest else none
]

-- standaloneCd: the operand.
unfoldable pub standalone_cd : Words → Option Text
standalone_cd (w ∷ []) = if text_eq w (codes "cd") then some [] else none
standalone_cd (w ∷ arg ∷ []) =
    if not (text_eq w (codes "cd"))
    then none
    else if text_eq arg (codes "-")
    then some arg
    else if has_prefix arg (codes "-") || contains_any arg (codes "*?[]")
    then none
    else some arg
standalone_cd _ = none

unfoldable pub all_names_valid : Words → Bool
all_names_valid [] = true
all_names_valid (n ∷ ns) = valid_env_name n && all_names_valid ns

-- The changes that standaloneEnv reads off a line.
pub record EnvChange : Type 0 where
  pub set : List (Text × Text)
  pub unset : Words

abbrev only_set : Option (List (Text × Text)) → Option EnvChange
only_set none = none
only_set (some set) = some (record { set = set; unset = [] })

-- standaloneEnv.
unfoldable pub standalone_env : Words → Option EnvChange
standalone_env [] = none
standalone_env (w ∷ ws) =
    if text_eq w (codes "export")
    then (if is_empty ws then none else only_set (parse_assignments [] ws))
    else if text_eq w (codes "unset")
    then (if is_empty ws || not (all_names_valid ws)
        then none
        else some (record { set = []; unset = ws }))
    else only_set (parse_assignments [] (w ∷ ws))

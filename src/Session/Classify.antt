-- ===== src/Session/Classify.antt =====
-- The risk of a line in its session: classifySessionLine, withSessionFloor and sessionNeedsApproval of
-- ai_session_approval.go.
use ssh_gate_oss.Base.{
  ℕ, Bool, true, false, not, ◌&&◌, ◌||◌, List, [], ◌∷◌, ◌++◌, Option, none, some, if◌then◌else◌,
  length, ltb, ◌==◌,
}
use ssh_gate_oss.Text.{Text, codes, text_eq, contains, fields, trim_space}
use ssh_gate_oss.Risk.Level.{Risk, low, medium, high, risk_rank}
use ssh_gate_oss.Risk.Words.{Words}
use ssh_gate_oss.Risk.Command.{
  Unicode, opaque_command, split_segments, analyze_command, command_uses_sudo,
}
use ssh_gate_oss.Session.Names.{
  NameClass, safe, dangerous, other, session_env_name_class, all_safe, names_of, env_overlay_unsafe,
  standalone_cd, standalone_env, EnvChange,
}
use ssh_gate_oss.Session.Scan.{Scan, scan_session_commands, history_expansion}

pub data Mode : Type 0 where
  exec shell : Mode

abbrev pub is_shell : Mode → Bool
is_shell exec = false
is_shell shell = true

-- The effect values.
pub data Effect : Type 0 where
  no_effect cd_effect env_effect state_change_effect : Effect

-- sessionRiskState.
pub record RiskState : Type 0 where
  pub mode : Mode
  pub env : List (Text × Text)
  pub tainted : Bool

-- sessionLineClass.
pub record LineClass : Type 0 where
  pub risk : Risk
  pub base_risk : Risk
  pub reasons : List Text
  pub effect : Effect
  pub cd_target : Text
  pub env_set : List (Text × Text)
  pub env_unset : Words
  pub uses_sudo : Bool
  pub cwd_persisted : Bool
  pub notice : Text

-- addReason.
unfoldable pub add_reason : Text → LineClass → LineClass
add_reason reason c =
    if contains c.reasons reason then c else record c { reasons = c.reasons ++ reason ∷ [] }

-- raise.
unfoldable pub raise_class : Risk → Text → LineClass → LineClass
unfolding add_reason
raise_class risk reason c =
    add_reason reason
      (record c { risk = if ltb (risk_rank c.risk) (risk_rank risk) then risk else c.risk })

abbrev pub raise_if : Bool → Risk → Text → LineClass → LineClass
raise_if b risk reason c = if b then raise_class risk reason c else c

abbrev pub reason_if : Bool → Text → LineClass → LineClass
reason_if b reason c = if b then add_reason reason c else c

abbrev base_reason : Risk → Text
base_reason low = codes "base:Low"
base_reason medium = codes "base:Medium"
base_reason high = codes "base:High"

abbrev pub cd_notice : Text
cd_notice =
    codes
      "cd inside a compound line applies only to that line; send cd on its own line to change the session directory"

-- The words of a line that is one plain command.
abbrev pub single_words : List Words → ℕ → Option Words
single_words (words ∷ []) n = if length words == n then some words else none
single_words _ n = none

-- The form of the words that a line reads as, where it is one plain command.
pub data Form : Type 0 where
  cd_form : Text → Form
  env_form : EnvChange → Form
  command_form : Form

unfoldable pub form_of_words : Option Words → Form
form_of_words none = command_form
form_of_words (some words) = elim (standalone_cd words) [
  | some target ↦ cd_form target
  | none ↦ elim (standalone_env words) [ some e ↦ env_form e | none ↦ command_form ]
]

-- The form of a line.
unfoldable pub form_of : Unicode → Text → Form
form_of u line =
    if opaque_command u line
    then command_form
    else form_of_words (single_words (split_segments line) (length (fields line)))

-- The class that classifySessionLine starts with.
unfoldable pub base_class : Unicode → Text → LineClass
base_class u line =
    let base = analyze_command u line in
    record {
      risk = base.risk;
      base_risk = base.risk;
      reasons = base_reason base.risk ∷ [];
      effect = no_effect;
      cd_target = [];
      env_set = [];
      env_unset = [];
      uses_sudo = command_uses_sudo u line;
      cwd_persisted = true;
      notice = [];
    }

module _ (to_upper : Text → Text) where
  -- withSessionFloor.
  unfoldable pub with_session_floor : RiskState → LineClass → LineClass
  with_session_floor st c =
      reason_if st.tainted (codes "session_tainted")
        (raise_if (env_overlay_unsafe to_upper st.env) medium (codes "env_overlay_unsafe") c)

  unfoldable pub raise_for : NameClass → LineClass → LineClass
  raise_for safe c = c
  raise_for dangerous c = raise_class high (codes "dangerous_env") c
  raise_for other c = raise_class medium (codes "env_overlay_unsafe") c

  -- The loop over the names of an env line.
  unfoldable pub raise_for_names : Words → LineClass → LineClass
  unfolding raise_for
  raise_for_names [] c = c
  raise_for_names (n ∷ ns) c = raise_for_names ns (raise_for (session_env_name_class to_upper n) c)

  -- The class of a standalone cd, and of a standalone export or unset.
  unfoldable pub cd_class : RiskState → Text → LineClass → LineClass
  cd_class st target c = with_session_floor st (
      add_reason (codes "cd_builtin")
        (record c { risk = low; effect = cd_effect; cd_target = target }))

  unfoldable pub env_class : RiskState → EnvChange → LineClass → LineClass
  env_class st e c = with_session_floor st (
      raise_for_names (names_of e.set ++ e.unset) (
        add_reason (codes "env_overlay")
          (record c { risk = low; effect = env_effect; env_set = e.set; env_unset = e.unset })))

  -- The class of any other line, from what its commands do.
  unfoldable pub command_class : RiskState → Scan → Bool → LineClass → LineClass
  command_class st s reexec c =
      let c1 = raise_if (is_shell st.mode && reexec) high (codes "history_reexec") c in
      let c2 = raise_if s.dangerous_env high (codes "dangerous_env") c1 in
      let c3 = raise_if s.detaches high (codes "detaches") c2 in
      let c4 =
        if s.state_change
        then record (raise_class high (codes "shell_state_change") c3) {
          effect = state_change_effect;
        }
        else c3 in
      with_session_floor st (
        if s.has_cd && not (is_shell st.mode)
        then record c4 { cwd_persisted = false; notice = cd_notice }
        else c4)

  module _ (u : Unicode) (func_def : Text → Bool) where
    -- What classifySessionLine makes of a line of this form.
    unfoldable pub class_of_form : RiskState → Text → LineClass → Form → LineClass
    class_of_form st line c (cd_form target) = cd_class st target c
    class_of_form st line c (env_form e) = env_class st e c
    class_of_form st line c command_form =
        command_class st (scan_session_commands to_upper func_def line (is_shell st.mode))
          (history_expansion line) c

    -- classifySessionLine.
    unfoldable pub classify_session_line : Text → RiskState → LineClass
    classify_session_line text st =
        let line = trim_space text in class_of_form st line (base_class u line) (form_of u line)

-- normalizeSessionBypassMaxRisk.
unfoldable pub normalize_session_bypass_max_risk : Text → Risk
normalize_session_bypass_max_risk risk = if text_eq risk (codes "Medium") then medium else low

abbrev is_high : Risk → Bool
is_high high = true
is_high _ = false

abbrev changes_state : Effect → Bool
changes_state state_change_effect = true
changes_state _ = false

abbrev sets_env : Effect → Bool
sets_env env_effect = true
sets_env _ = false

-- sessionNeedsApproval.
unfoldable pub session_needs_approval : (Text → Text) → RiskState → LineClass → Text → Bool
session_needs_approval to_upper st c bypass_max_risk =
    if is_high c.risk || changes_state c.effect
    then true
    else if ltb (risk_rank (normalize_session_bypass_max_risk bypass_max_risk)) (risk_rank c.risk)
    then true
    else if st.tainted
    then true
    else sets_env c.effect
      && not (all_safe to_upper (names_of c.env_set) && all_safe to_upper c.env_unset)

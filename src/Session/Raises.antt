-- ===== src/Session/Raises.antt =====
-- The class of a line is never milder than its command, except for the cd and env lines that the gateway
-- runs itself.
use ssh_gate_oss.Base.{
  ℕ, ◌≡◌, sym, ◌∙◌, ap, ◌≤◌, ◌≢◌, ◌⊎◌, inl, inr, refl, Bool, true, false, not, ◌&&◌, List, [], ◌∷◌,
  ◌++◌, arith, Bool-cases, if◌then◌else◌,
}
use ssh_gate_oss.Text.{Text, codes, trim_space}
use ssh_gate_oss.Risk.Level.{Risk, low, medium, high, risk_rank}
use ssh_gate_oss.Risk.Words.{Words}
use ssh_gate_oss.Risk.Command.{Unicode, classify_risk}
use ssh_gate_oss.Session.Names.{
  names_of, session_env_name_class, EnvChange, env_overlay_unsafe, all_safe,
}
use ssh_gate_oss.Session.Scan.{Scan, scan_session_commands, history_expansion}
use ssh_gate_oss.Session.Classify.{
  is_shell, env_effect, state_change_effect, RiskState, LineClass, Form, raise_for_names, raise_for,
  session_needs_approval, normalize_session_bypass_max_risk, add_reason, raise_class, raise_if,
  with_session_floor, command_class, env_class, classify_session_line, class_of_form, base_class,
  cd_notice, form_of, cd_form, env_form, command_form,
}

add_reason-keeps :
    (reason : Text) (c : LineClass)
    → let c' = add_reason reason c in
      (c'.risk ≡ c.risk) × (c'.base_risk ≡ c.base_risk) × (c'.effect ≡ c.effect)
unfolding add_reason
add_reason-keeps reason c = ground arith

raise_class-le :
    (risk : Risk) (reason : Text) (c : LineClass)
    → let c' = raise_class risk reason c in
      (risk_rank c.risk ≤ risk_rank c'.risk)
      × (risk_rank risk ≤ risk_rank c'.risk)
      × (c'.effect ≡ c.effect)
unfolding raise_class add_reason
raise_class-le risk reason c = ground arith

raise_if-le :
    (b : Bool) (risk : Risk) (reason : Text) (c : LineClass)
    → risk_rank c.risk ≤ risk_rank (raise_if b risk reason c).risk
raise_if-le b risk reason c = ground (arith, raise_class-le risk reason c)

module _ (to_upper : Text → Text) where
  with_session_floor-le :
      (st : RiskState) (c : LineClass)
      → let c' = with_session_floor to_upper st c in
        (risk_rank c.risk ≤ risk_rank c'.risk)
        × (c'.effect ≡ c.effect)
        × (env_overlay_unsafe to_upper st.env ≡ true → 1 ≤ risk_rank c'.risk)
  unfolding with_session_floor
  with_session_floor-le st c = ground (
    arith,
    raise_class-le medium (codes "env_overlay_unsafe") c,
    add_reason-keeps (codes "session_tainted") c,
    add_reason-keeps (codes "session_tainted") (raise_class medium (codes "env_overlay_unsafe") c),
  )

  command_class-le :
      (st : RiskState) (s : Scan) (reexec : Bool) (c : LineClass)
      → let c' = command_class to_upper st s reexec c in
        (risk_rank c.risk ≤ risk_rank c'.risk)
        × (env_overlay_unsafe to_upper st.env ≡ true → 1 ≤ risk_rank c'.risk)
  unfolding command_class
  command_class-le st s reexec c =
      let c1 = raise_if (is_shell st.mode && reexec) high (codes "history_reexec") c in
      let c2 = raise_if s.dangerous_env high (codes "dangerous_env") c1 in
      let c3 = raise_if s.detaches high (codes "detaches") c2 in
      let c4 =
        if s.state_change
        then record (raise_class high (codes "shell_state_change") c3) {
          effect = state_change_effect;
        }
        else c3 in
      let c5 =
        if s.has_cd && not (is_shell st.mode)
        then record c4 { cwd_persisted = false; notice = cd_notice }
        else c4 in
      let e1 = raise_if-le (is_shell st.mode && reexec) high (codes "history_reexec") c in
      let e2 = raise_if-le s.dangerous_env high (codes "dangerous_env") c1 in
      let e3 = raise_if-le s.detaches high (codes "detaches") c2 in
      let e4 : risk_rank c3.risk ≤ risk_rank c4.risk = state_change-le s.state_change c3 in
      let e5 : c5.risk ≡ c4.risk = notice-risk (s.has_cd && not (is_shell st.mode)) c4 in
      let (f, same, floor) = with_session_floor-le st c5 in (le_trans5 e1 e2 e3 e4 e5 f, floor)
    where
      state_change-le :
          (b : Bool) (c : LineClass)
          → risk_rank c.risk
            ≤ risk_rank
                (if b
                  then record (raise_class high (codes "shell_state_change") c) {
                    effect = state_change_effect;
                  }
                  else c).risk
      state_change-le b c = ground (arith, raise_class-le high (codes "shell_state_change") c)

      notice-risk :
          (b : Bool) (c : LineClass)
          → (if b then record c { cwd_persisted = false; notice = cd_notice } else c).risk ≡ c.risk
      notice-risk b c = ground arith

      le_trans5 :
          {a b c d : ℕ} {r s : Risk} {e : ℕ}
          → a ≤ b
          → b ≤ c
          → c ≤ d
          → d ≤ risk_rank r
          → s ≡ r
          → risk_rank s ≤ e
          → a ≤ e
      le_trans5 p q r s t u = ground arith

  raise_class-keeps_env :
      (risk : Risk) (reason : Text) (c : LineClass)
      → let c' = raise_class risk reason c in
        (c'.effect ≡ c.effect) × (c'.env_set ≡ c.env_set) × (c'.env_unset ≡ c.env_unset)
  unfolding raise_class add_reason
  raise_class-keeps_env risk reason c = ground arith

  raise_for_names-keeps_env :
      (names : Words) (c : LineClass)
      → let c' = raise_for_names to_upper names c in
        (c'.effect ≡ c.effect) × (c'.env_set ≡ c.env_set) × (c'.env_unset ≡ c.env_unset)
  unfolding raise_for_names raise_for
  raise_for_names-keeps_env [] c = (refl, refl, refl)
  raise_for_names-keeps_env (n ∷ ns) c = ground (
    arith,
    raise_class-keeps_env high (codes "dangerous_env") c,
    raise_class-keeps_env medium (codes "env_overlay_unsafe") c,
    raise_for_names-keeps_env ns (raise_for to_upper (session_env_name_class to_upper n) c),
  )

  env_class-keeps_env :
      (st : RiskState) (e : EnvChange) (c : LineClass)
      → let c' = env_class to_upper st e c in
        (c'.effect ≡ env_effect) × (c'.env_set ≡ e.set) × (c'.env_unset ≡ e.unset)
  unfolding env_class with_session_floor add_reason raise_class
  env_class-keeps_env st e c = ground (
    arith,
    raise_for_names-keeps_env (names_of e.set ++ e.unset) (
        add_reason (codes "env_overlay")
          (record c { risk = low; effect = env_effect; env_set = e.set; env_unset = e.unset })),
  )

  -- What a line may be that is sent without approval.
  abbrev pub Mild : Unicode → RiskState → Text → Text → Form → Type 0
  Mild u st limit line (cd_form target) = Unit
  Mild u st limit line (env_form e) =
      (all_safe to_upper (names_of e.set) ≡ true) × (all_safe to_upper e.unset ≡ true)
  Mild u st limit line command_form =
      (risk_rank (classify_risk u line) ≤ risk_rank (normalize_session_bypass_max_risk limit))
      × (risk_rank (normalize_session_bypass_max_risk limit) ≤ 1)
      × ((env_overlay_unsafe to_upper st.env ≡ false)
          ⊎ (normalize_session_bypass_max_risk limit ≡ medium))

  needs_approval-inv :
      (st : RiskState) (c : LineClass) (limit : Text)
      → session_needs_approval to_upper st c limit ≡ false
      → (st.tainted ≡ false)
        × (c.effect ≢ state_change_effect)
        × (risk_rank c.risk ≤ risk_rank (normalize_session_bypass_max_risk limit))
        × (c.effect ≡ env_effect
            → (all_safe to_upper (names_of c.env_set) ≡ true)
              × (all_safe to_upper c.env_unset ≡ true))
  unfolding session_needs_approval normalize_session_bypass_max_risk
  needs_approval-inv st c limit n = ground arith

  class_of_form-Mild :
      (u : Unicode) (func_def : Text → Bool) (st : RiskState) (limit line : Text) (f : Form)
      → session_needs_approval to_upper st
          (class_of_form to_upper u func_def st line (base_class u line) f)
          limit
        ≡ false
      → Mild u st limit line f
  unfolding class_of_form base_class classify_risk normalize_session_bypass_max_risk
  class_of_form-Mild u func_def st limit line (cd_form target) n = tt
  class_of_form-Mild u func_def st limit line (env_form e) n =
      let c = env_class to_upper st e (base_class u line) in
      let (effect, set, unset) = env_class-keeps_env st e (base_class u line) in
      let (t, s, r, safe) = needs_approval-inv st c limit n in
      let (p, q) = safe effect in
      (
        ap (λ (m : List (Text × Text)). all_safe to_upper (names_of m)) (sym set) ∙ p,
        ap (λ (m : Words). all_safe to_upper m) (sym unset) ∙ q,
      )
  class_of_form-Mild u func_def st limit line command_form n =
      let s = scan_session_commands to_upper func_def line (is_shell st.mode) in
      let b = base_class u line in
      let c = command_class to_upper st s (history_expansion line) b in
      let (t, e, r, safe) = needs_approval-inv st c limit n in
      let (rises, floor) = command_class-le st s (history_expansion line) b in
      (
        omega arith,
        limit_le limit,
        elim (Bool-cases (env_overlay_unsafe to_upper st.env)) [
          | inl h ↦ inr (limit_medium limit (floor h) r)
          | inr h ↦ inl h
        ],
      )
    where
      limit_le : (limit : Text) → risk_rank (normalize_session_bypass_max_risk limit) ≤ 1
      limit_le limit = unfold normalize_session_bypass_max_risk in ground arith

      limit_medium :
          (limit : Text) {r : ℕ}
          → 1 ≤ r
          → r ≤ risk_rank (normalize_session_bypass_max_risk limit)
          → normalize_session_bypass_max_risk limit ≡ medium
      limit_medium limit p q = unfold normalize_session_bypass_max_risk in ground arith

  -- A line that is sent without approval is sent in an untainted session, changes no state of the
  -- shell, and is no riskier than the limit, which is Medium at most: its command is not, unless the
  -- gateway runs it itself as a cd or as an environment change with safe names only. Where the
  -- environment of the session has an unsafe name, the limit is Medium, except for such changes.
  pub unapproved_line-Mild :
      (u : Unicode) (func_def : Text → Bool) (text : Text) (st : RiskState) (limit : Text)
      → session_needs_approval to_upper st (classify_session_line to_upper u func_def text st) limit
        ≡ false
      → (st.tainted ≡ false)
        × ((classify_session_line to_upper u func_def text st).effect ≢ state_change_effect)
        × Mild u st limit (trim_space text) (form_of u (trim_space text))
  unfolding class_of_form classify_session_line
  unapproved_line-Mild u func_def text st limit n =
      let (t, e, r, safe) =
        needs_approval-inv st (classify_session_line to_upper u func_def text st) limit n in
      (
        t,
        e,
        class_of_form-Mild u func_def st limit (trim_space text) (form_of u (trim_space text)) n,
      )

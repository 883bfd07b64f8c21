-- ===== src/Requests/Bypass.antt =====
-- When an agent's command runs without approval.
use ssh_gate_oss.Base.{
  ℕ, ◌≤◌, ◌<◌, ◌≡◌, ◌↔◌, ◌⊎◌, inl, inr, Bool, true, false, ◌||◌, some, arith, is_empty,
  Option-cases,
}
use ssh_gate_oss.Text.{Text, codes, contains, lookup, trim_space}
use ssh_gate_oss.Text.Laws.{text_eq_iff}
use ssh_gate_oss.Risk.Level.{Risk, risk_rank}
use ssh_gate_oss.Risk.Command.{Unicode}
use ssh_gate_oss.Requests.Request.{Connection}
use ssh_gate_oss.Requests.Policy.{
  AgentPolicy, AgentToken, Caller, Grants, may_bypass_as, policy_active_at,
  normalize_bypass_max_risk, policy_allows, agent_bypass_covers, agent_forced_bypass,
  switches_require, needs_human_approval,
}

-- The caller proved by the agent's current token that it is the agent, and the token may bypass.
pub record Proved (g : Grants) (caller : Caller) (agent_name : Text) : Type 0 where
  pub names_itself : trim_space agent_name ≡ caller.agent
  pub named : is_empty caller.agent ≡ false
  pub presented : is_empty caller.token_hash ≡ false
  pub token :
      (t : AgentToken) × (lookup caller.agent g.agent_tokens ≡ some t)
      × (t.bypass ≡ true)
      × (t.token_hash ≡ caller.token_hash)

-- A human's grant covers the risk on the connection now.
pub record Covered (p : AgentPolicy) (risk : Risk) (conn : Connection) (now : ℕ) : Type 0 where
  pub on : p.approval_bypass ≡ true
  pub unexpired : now < p.expires_at
  pub risk_covered : risk_rank risk ≤ risk_rank (normalize_bypass_max_risk p.max_risk)
  pub conn_covered : (is_empty p.scope_conn_ids || contains p.scope_conn_ids conn.id) ≡ true

policy_allows_iff :
    (p : AgentPolicy) (risk : Risk) (conn : Connection) (now : ℕ)
    → (policy_allows p risk conn.id now ≡ true) ↔ Covered p risk conn now
unfolding policy_allows policy_active_at
policy_allows_iff p risk conn now = (λ h. ground arith, λ c. ground (arith, c.on, c.unexpired))

agent_bypass_covers-inv :
    (g : Grants) (now : ℕ) (name hash : Text) (conn : Connection) (risk : Risk)
    → agent_bypass_covers g now name hash conn risk ≡ true
    → (is_empty hash ≡ false)
      × ((t : AgentToken) × (lookup name g.agent_tokens ≡ some t)
          × (t.bypass ≡ true)
          × (t.token_hash ≡ hash))
      × ((p : AgentPolicy) × (lookup name g.agent_policies ≡ some p) × Covered p risk conn now)
unfolding agent_bypass_covers
agent_bypass_covers-inv g now name hash conn risk h =
    elim (Option-cases (lookup name g.agent_tokens)) [
      | inl e ↦ absurd (ground arith)
      | inr (t, e) ↦ elim (Option-cases (lookup name g.agent_policies)) [
        | inl k ↦ absurd (ground arith)
        | inr (p, k) ↦ (
          ground arith,
          (t, e, ground arith, ground (arith, text_eq_iff t.token_hash hash)),
          (p, k, (policy_allows_iff p risk conn now).0 (ground arith)),
        )
      ]
    ]

agent_bypass_covers-intro :
    (g : Grants) (now : ℕ) (name hash : Text) (conn : Connection) (risk : Risk) (t : AgentToken)
    (p : AgentPolicy)
    → is_empty hash ≡ false
    → lookup name g.agent_tokens ≡ some t
    → t.bypass ≡ true
    → t.token_hash ≡ hash
    → lookup name g.agent_policies ≡ some p
    → Covered p risk conn now
    → agent_bypass_covers g now name hash conn risk ≡ true
unfolding agent_bypass_covers
agent_bypass_covers-intro g now name hash conn risk t p hs e b th k c =
    let allows = (policy_allows_iff p risk conn now).1 c in
    ground (arith, text_eq_iff t.token_hash hash)

forced_iff :
    (g : Grants) (name : Text) (p : AgentPolicy)
    → lookup name g.agent_policies ≡ some p
    → (agent_forced_bypass g name ≡ true) ↔ (p.max_risk ≡ codes "High")
unfolding agent_forced_bypass
forced_iff g name p e = (
  λ h. ground (arith, text_eq_iff p.max_risk (codes "High")),
  λ h. ground (arith, text_eq_iff p.max_risk (codes "High")),
)

module _ (u : Unicode) where
  needs_human_approval_guards :
      (g : Grants) (now : ℕ) (conn : Connection) (risk : Risk) (command : Text) (caller : Caller)
      (agent_name : Text) (force_queue : Bool)
      → (needs_human_approval u g now conn risk command caller agent_name force_queue ≡ false) ↔ (
          (force_queue ≡ false)
          × (may_bypass_as caller agent_name ≡ true)
          × (agent_bypass_covers g now caller.agent caller.token_hash conn risk ≡ true)
          × ((agent_forced_bypass g caller.agent ≡ true)
              ⊎ (switches_require u g conn risk command ≡ false)))
  unfolding needs_human_approval
  needs_human_approval_guards g now conn risk command caller agent_name force_queue =
      (λ h. ground arith, λ h. ground arith)

  may_bypass_as_iff :
      (caller : Caller) (agent_name : Text)
      → (may_bypass_as caller agent_name ≡ true)
        ↔ ((trim_space agent_name ≡ caller.agent) × (is_empty caller.agent ≡ false))
  unfolding may_bypass_as
  may_bypass_as_iff caller agent_name = (
    λ h. ground (arith, text_eq_iff (trim_space agent_name) caller.agent),
    λ h. ground (arith, text_eq_iff (trim_space agent_name) caller.agent),
  )

  -- Approval is skipped exactly if the agent did not ask to be queued, proved itself, is covered by
  -- a grant, and the grant is the forced one or no RequireApproval switch applies.
  pub needs_human_approval_iff :
      (g : Grants) (now : ℕ) (conn : Connection) (risk : Risk) (command : Text) (caller : Caller)
      (agent_name : Text) (force_queue : Bool)
      → (needs_human_approval u g now conn risk command caller agent_name force_queue ≡ false) ↔ (
          (force_queue ≡ false)
          × Proved g caller agent_name
          × ((p : AgentPolicy) × (lookup caller.agent g.agent_policies ≡ some p)
              × Covered p risk conn now
              × ((p.max_risk ≡ codes "High") ⊎ (switches_require u g conn risk command ≡ false))))
  needs_human_approval_iff g now conn risk command caller agent_name force_queue = (
    λ h.
        let (fq, mb, cov, f) =
          (needs_human_approval_guards g now conn risk command caller agent_name force_queue).0 h in
        let (own, named) = (may_bypass_as_iff caller agent_name).0 mb in
        let (hs, token, (p, k, c)) =
          agent_bypass_covers-inv g now caller.agent caller.token_hash conn risk cov in
        (
          fq,
          record { names_itself = own; named = named; presented = hs; token = token },
          (p, k, c, elim f [ inl y ↦ inl ((forced_iff g caller.agent p k).0 y) | inr n ↦ inr n ]),
        ),
    λ (fq, proved, (p, k, c, f)).
        let (t, e, b, th) = proved.token in
        (needs_human_approval_guards g now conn risk command caller agent_name force_queue).1 (
          fq,
          (may_bypass_as_iff caller agent_name).1 (proved.names_itself, proved.named),
          agent_bypass_covers-intro g now caller.agent caller.token_hash conn risk t p
              proved.presented e b th k c,
          elim f [ inl y ↦ inl ((forced_iff g caller.agent p k).1 y) | inr n ↦ inr n ],
        ),
  )

-- ===== src/Requests/Policy.antt =====
-- Who may run a command without approval: needsHumanApproval of approval.go, agentBypassCovers,
-- agentForcedBypass and mayBypassAs of app.go, policyAllows and its helpers of storage.go.
use ssh_gate_oss.Base.{
  ℕ, Bool, true, false, not, ◌&&◌, ◌||◌, List, [], ◌∷◌, Option, none, some, ltb, if◌then◌else◌,
  is_empty, map,
}
use ssh_gate_oss.Text.{Text, codes, text_eq, contains, lookup, trim_space}
use ssh_gate_oss.Risk.Level.{Risk, low, medium, high, risk_rank}
use ssh_gate_oss.Risk.Command.{Unicode, command_uses_sudo}
use ssh_gate_oss.Requests.Request.{Connection}

-- AgentPolicy; `expires_at` is rfc3339Millis(ExpiresAt), which is 0 for a text that does not parse.
pub record AgentPolicy : Type 0 where
  pub approval_bypass : Bool
  pub max_risk : Text
  pub scope_conn_ids : List Text
  pub expires_at : ℕ

pub record AgentToken : Type 0 where
  pub agent_name : Text
  pub token_hash : Text
  pub bypass : Bool

-- mcpCaller.
pub record Caller : Type 0 where
  pub agent : Text
  pub shared : Bool
  pub token_hash : Text

-- The maps and settings that the decision reads.
pub record Grants : Type 0 where
  pub agent_policies : List (Text × AgentPolicy)
  pub agent_tokens : List (Text × AgentToken)
  pub require_approval_sudo : Bool
  pub require_approval_prod : Bool
  pub require_approval_write_op : Bool

-- mayBypassAs.
unfoldable pub may_bypass_as : Caller → Text → Bool
may_bypass_as c agent_name = not (is_empty c.agent) && text_eq (trim_space agent_name) c.agent

-- policyActiveAt, at a time in milliseconds.
unfoldable pub policy_active_at : AgentPolicy → ℕ → Bool
policy_active_at p now = p.approval_bypass && ltb now p.expires_at

-- normalizeBypassMaxRisk.
unfoldable pub normalize_bypass_max_risk : Text → Risk
normalize_bypass_max_risk risk =
    if text_eq risk (codes "Low") then low else if text_eq risk (codes "High") then high else medium

-- policyAllows.
unfoldable pub policy_allows : AgentPolicy → Risk → Text → ℕ → Bool
policy_allows p risk conn_id now =
    if not (policy_active_at p now)
    then false
    else if ltb (risk_rank (normalize_bypass_max_risk p.max_risk)) (risk_rank risk)
    then false
    else is_empty p.scope_conn_ids || contains p.scope_conn_ids conn_id

abbrev token_fits : Option AgentToken → Text → Bool
token_fits none hash = false
token_fits (some t) hash = t.bypass && not (is_empty hash) && text_eq t.token_hash hash

abbrev policy_fits : Option AgentPolicy → Risk → Text → ℕ → Bool
policy_fits none risk conn_id now = false
policy_fits (some p) risk conn_id now = policy_allows p risk conn_id now

-- agentBypassCovers.
unfoldable pub agent_bypass_covers : Grants → ℕ → Text → Text → Connection → Risk → Bool
agent_bypass_covers g now agent_name token_hash conn risk =
    token_fits (lookup agent_name g.agent_tokens) token_hash
    && policy_fits (lookup agent_name g.agent_policies) risk conn.id now

abbrev is_forced : Option AgentPolicy → Bool
is_forced none = false
is_forced (some p) = text_eq p.max_risk (codes "High")

-- agentForcedBypass.
unfoldable pub agent_forced_bypass : Grants → Text → Bool
agent_forced_bypass g agent_name = is_forced (lookup agent_name g.agent_policies)

abbrev is_low : Risk → Bool
is_low low = true
is_low _ = false

module _ (u : Unicode) where
  -- The loop over the tags of a connection.
  unfoldable pub has_production_tag : List Text → Bool
  has_production_tag [] = false
  has_production_tag (t ∷ tags) =
      let tag = map u.to_lower (trim_space t) in
      (text_eq tag (codes "prod") || text_eq tag (codes "production") || text_eq tag (codes "本番"))
      || has_production_tag tags

  -- The RequireApproval* switches.
  unfoldable pub switches_require : Grants → Connection → Risk → Text → Bool
  switches_require g conn risk command =
      if g.require_approval_write_op && not (is_low risk)
      then true
      else if g.require_approval_sudo && command_uses_sudo u command
      then true
      else g.require_approval_prod && has_production_tag conn.tags

  -- needsHumanApproval.
  unfoldable pub needs_human_approval :
      Grants → ℕ → Connection → Risk → Text → Caller → Text → Bool → Bool
  needs_human_approval g now conn risk command caller agent_name force_queue =
      if force_queue || not (may_bypass_as caller agent_name)
      then true
      else if not (agent_bypass_covers g now caller.agent caller.token_hash conn risk)
      then true
      else if agent_forced_bypass g caller.agent
      then false
      else switches_require g conn risk command

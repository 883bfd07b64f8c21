-- ===== src/Risk/Level.antt =====
-- riskRank of approval.go and commandAnalysis of risk.go. The three risk strings are constructors.
use ssh_gate_oss.Base.{ℕ, ◌≤◌, Bool, true, ltb, if◌then◌else◌, arith, max, ◌≡◌}

pub data Risk : Type 0 where
  low medium high : Risk

-- riskRank.
abbrev pub risk_rank : Risk → ℕ
risk_rank low = 0
risk_rank medium = 1
risk_rank high = 2

pub record Analysis : Type 0 where
  pub risk : Risk
  pub uses_sudo : Bool

-- The body of the closure `raise`, and of the fold in analyzeCommand.
unfoldable pub raise : Risk → Risk → Risk
raise new old = if ltb (risk_rank old) (risk_rank new) then new else old

-- What the classifier answers when it cannot read the command.
abbrev pub unreadable : Analysis
unreadable = record { risk = high; uses_sudo = true }

pub rank-raise : (a b : Risk) → risk_rank (raise a b) ≡ max (risk_rank a) (risk_rank b)
unfolding raise
rank-raise a b = ground arith

pub raise-le_right : (a b : Risk) → risk_rank b ≤ risk_rank (raise a b)
unfolding raise
raise-le_right a b = ground arith

pub raise-le_left : (a b : Risk) → risk_rank a ≤ risk_rank (raise a b)
unfolding raise
raise-le_left a b = ground arith

pub raise_mono :
    (a b c : Risk) → risk_rank b ≤ risk_rank c → risk_rank (raise a b) ≤ risk_rank (raise a c)
unfolding raise
raise_mono a b c h = ground arith

-- ===== src/Gate/Seen.antt =====
-- The table of the agents that were seen last: mcpAgents stays within maxMCPAgents.
use ssh_gate_oss.Base.{
  ℕ, ◌≤◌, ◌≡◌, ◌+◌, List, [], ◌∷◌, none, some, arith, is_empty, length, take, ◌++◌, if◌then◌else◌,
}
use ssh_gate_oss.Text.{Text, lookup}
use ssh_gate_oss.Text.Laws.{text_eq_iff}
use ssh_gate_oss.Table.{put, put-Distinct, Distinct}
use ssh_gate_oss.Gate.Handler.{max_mcp_agents, forget_seen_before, remember_mcp_agent}

length-put :
    (k : Text) (v : ℕ) (m : List (Text × ℕ))
    → length (put k v m) ≡ (elim (lookup k m) [ none ↦ length m + 1 | some w ↦ length m ])
unfolding put lookup
length-put k v [] = ground arith
length-put k v ((j, w) ∷ m) = ground (arith, text_eq_iff j k, text_eq_iff k j, length-put k v m)

forget_seen_before-lookup-none :
    (now : ℕ) (k : Text) (m : List (Text × ℕ))
    → lookup k m ≡ none
    → lookup k (forget_seen_before now m) ≡ none
unfolding forget_seen_before lookup
forget_seen_before-lookup-none now k [] h = h
forget_seen_before-lookup-none now k ((j, seen) ∷ m) h =
    ground (arith, forget_seen_before-lookup-none now k m)

forget_seen_before-Distinct :
    (now : ℕ) (m : List (Text × ℕ)) → Distinct m → Distinct (forget_seen_before now m)
unfolding forget_seen_before
forget_seen_before-Distinct now [] d = tt
forget_seen_before-Distinct now ((j, seen) ∷ m) d =
    ground
      (arith, forget_seen_before-Distinct now m d.1, forget_seen_before-lookup-none now j m d.0)

forget_seen_before-le :
    (now : ℕ) (m : List (Text × ℕ)) → length (forget_seen_before now m) ≤ length m
unfolding forget_seen_before
forget_seen_before-le now [] = omega arith
forget_seen_before-le now ((j, seen) ∷ m) = ground (arith, forget_seen_before-le now m)

-- Remembering a client keeps a table of at most 256 clients, none twice, at that size and without
-- repetition.
pub remember_mcp_agent-bounded :
    (now : ℕ) (user_agent remote : Text) (agents : List (Text × ℕ))
    → length agents ≤ max_mcp_agents
    → Distinct agents
    → (length (remember_mcp_agent now user_agent remote agents) ≤ max_mcp_agents)
      × Distinct (remember_mcp_agent now user_agent remote agents)
unfolding remember_mcp_agent
remember_mcp_agent-bounded now user_agent remote agents h d =
    let key =
      if is_empty remote then take 200 user_agent else remote ++ (32 ∷ take 200 user_agent) in
    let kept = forget_seen_before now agents in
    ground (
      arith,
      forget_seen_before-le now agents,
      length-put key now kept,
      put-Distinct key now kept (forget_seen_before-Distinct now agents d),
      forget_seen_before-Distinct now agents d,
    )

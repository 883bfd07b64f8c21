-- ===== src/Gate/Handler.antt =====
-- What the guard lets through: handleMCP and rememberMCPAgent of mcp_server.go, authenticateMCP and
-- lookupAgentToken of app.go. The user agent is a list of bytes.
use ssh_gate_oss.Base.{
  ℕ, Bool, true, false, not, ◌&&◌, ◌||◌, List, [], ◌∷◌, ◌++◌, ◌+◌, Option, none, some,
  if◌then◌else◌, is_empty, ltb, length, take,
}
use ssh_gate_oss.Text.{Text, codes, texts, text_eq, contains, lookup, has_prefix, trim_space}
use ssh_gate_oss.Table.{put}
use ssh_gate_oss.Requests.Policy.{AgentToken, Caller}
use ssh_gate_oss.Gate.Guard.{
  Net, Settings, HttpRequest, Guarded, guard_http, check_bearer, passes, validate_listen_settings,
}

-- strings.CutPrefix.
unfoldable pub cut_prefix : Text → Text → Option Text
cut_prefix s [] = some s
cut_prefix [] (d ∷ p) = none
cut_prefix (c ∷ s) (d ∷ p) =
    let rest = cut_prefix s p in if text_eq (c ∷ []) (d ∷ []) then rest else none

-- The loop of lookupAgentToken: the last token with the hash wins.
unfoldable pub match_token : Text → Option AgentToken → List (Text × AgentToken) → Option AgentToken
match_token hash found [] = found
match_token hash found ((k, t) ∷ tokens) =
    match_token hash (if text_eq t.token_hash hash then some t else found) tokens

abbrev pub shared_caller : Caller
shared_caller = record { agent = []; shared = true; token_hash = [] }

abbrev pub nobody : Caller
nobody = record { agent = []; shared = false; token_hash = [] }

abbrev pub token_caller : AgentToken → Caller
token_caller t = record { agent = t.agent_name; shared = false; token_hash = t.token_hash }

-- hashAgentToken is SHA-256 in hexadecimal, of Go's crypto/sha256.
module _ (hash_agent_token : Text → Text) where
  -- lookupAgentToken.
  unfoldable pub lookup_agent_token : List (Text × AgentToken) → Text → Option AgentToken
  lookup_agent_token tokens presented =
      if not (has_prefix presented (codes "sga_"))
      then none
      else match_token (hash_agent_token presented) none tokens

  -- The token that the request presents, if it is an agent's.
  unfoldable pub agent_of : List (Text × AgentToken) → HttpRequest → Option AgentToken
  agent_of tokens r = elim (cut_prefix r.authorization (codes "Bearer ")) [
    | none ↦ none
    | some presented ↦ lookup_agent_token tokens (trim_space presented)
  ]

  -- authenticateMCP; `none` means 401.
  unfoldable pub authenticate_mcp :
      List (Text × AgentToken) → HttpRequest → Settings → Text → Option Caller
  authenticate_mcp tokens r settings shared_token = elim (agent_of tokens r) [
    | some t ↦ some (token_caller t)
    | none ↦
        if not settings.bearer_enabled
        then some nobody
        else if check_bearer r shared_token
        then some shared_caller
        else none
  ]

-- maxMCPAgents.
abbrev pub max_mcp_agents : ℕ
max_mcp_agents = 256

unfoldable pub forget_seen_before : ℕ → List (Text × ℕ) → List (Text × ℕ)
forget_seen_before now [] = []
forget_seen_before now ((k, seen) ∷ m) =
    let rest = forget_seen_before now m in
    if ltb (seen + 300_000_000_000) now then rest else (k, seen) ∷ rest

abbrev is_known : Option ℕ → Bool
is_known none = false
is_known (some seen) = true

-- rememberMCPAgent, at a time in nanoseconds; `remote` is the host of RemoteAddr, empty where it
-- has none.
unfoldable pub remember_mcp_agent : ℕ → Text → Text → List (Text × ℕ) → List (Text × ℕ)
remember_mcp_agent now user_agent remote agents =
    let key' = take 200 user_agent in
    let key = if is_empty remote then key' else remote ++ (32 ∷ key') in
    let kept = forget_seen_before now agents in
    if is_known (lookup key kept) || ltb (length kept) max_mcp_agents
    then put key now kept
    else kept

-- What json.Unmarshal reads of the body: the members of rpcRequest, and the test of isRPCResponse
-- for a result or an error.
pub record RpcRequest : Type 0 where
  pub has_id : Bool
  pub jsonrpc : Text
  pub method : Text
  pub is_rpc_response : Bool

-- The body: too large, a batch, not JSON, or a request.
pub data Body : Type 0 where
  too_large batch no_json : Body
  rpc : RpcRequest → Body

-- The answers of handleMCP; `dispatched` is the call of dispatchMCP.
pub data Handled : Type 0 where
  stopped_by : Guarded → Handled
  post_only unauthorized unsupported_version request_too_large no_batch invalid_json accepted :
      Handled
  invalid_request : Handled
  dispatched : Caller → RpcRequest → Handled

-- supportedProtocolVersions.
abbrev pub supported_protocol_versions : List Text
supported_protocol_versions = texts ("2025-06-18" ∷ "2025-03-26" ∷ [])

-- handleMCP, from the parsed request on.
unfoldable pub handle_rpc : Caller → RpcRequest → Handled
handle_rpc caller req =
    if not req.has_id || (is_empty req.method && req.is_rpc_response)
    then accepted
    else if not (text_eq req.jsonrpc (codes "2.0")) || is_empty req.method
    then invalid_request
    else dispatched caller req

abbrev handle_body : Caller → Body → Handled
handle_body caller too_large = request_too_large
handle_body caller batch = no_batch
handle_body caller no_json = invalid_json
handle_body caller (rpc req) = handle_rpc caller req

module _ (net : Net) (hash_agent_token : Text → Text) where
  -- handleMCP, with the table of the agents that were seen.
  unfoldable pub handle_mcp :
      ℕ
      → List (Text × ℕ)
      → List (Text × AgentToken)
      → HttpRequest
      → Settings
      → Text
      → Body
      → List (Text × ℕ) × Handled
  handle_mcp now agents tokens r settings token body =
      if not (text_eq r.method (codes "POST"))
      then (agents, post_only)
      else elim (authenticate_mcp hash_agent_token tokens r settings token) [
        | none ↦ (agents, unauthorized)
        | some caller ↦ (
          remember_mcp_agent now r.user_agent r.remote agents,
          if not (is_empty r.protocol_version)
                && not (contains supported_protocol_versions r.protocol_version)
              then unsupported_version
              else handle_body caller body,
        )
      ]

  abbrev behind_guard :
      Guarded → List (Text × ℕ) → List (Text × ℕ) × Handled → List (Text × ℕ) × Handled
  behind_guard passes agents h = h
  behind_guard g agents h = (agents, stopped_by g)

  -- The handler of newMCPHandler at MCPPath.
  unfoldable pub serve_mcp :
      ℕ
      → List (Text × ℕ)
      → List (Text × AgentToken)
      → HttpRequest
      → Settings
      → Text
      → Body
      → List (Text × ℕ) × Handled
  serve_mcp now agents tokens r settings token body =
      behind_guard (guard_http net settings r) agents
        (handle_mcp now agents tokens r settings token body)

-- The outcomes of startMCPServerLocked; `listening` serves newMCPHandler(settings, token).
pub data Started : Type 0 where
  stays_off refused_listen listen_failed : Started
  listening : Settings → Text → Started

-- startMCPServerLocked; the Boolean is whether net.Listen fails.
unfoldable pub start_mcp_server : Net → Settings → Text → Bool → Started
start_mcp_server net settings token fails =
    if not settings.enabled
    then stays_off
    else if not (validate_listen_settings net settings token)
    then refused_listen
    else if fails
    then listen_failed
    else listening settings token

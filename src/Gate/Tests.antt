-- ===== src/Gate/Tests.antt =====
-- Tests of the door, with one agent token and a shared token.
use ssh_gate_oss.Base.{
  ◌≡◌, ◌≤◌, refl, true, false, List, [], ◌∷◌, Option, none, some, arith, length, if◌then◌else◌,
}
use ssh_gate_oss.Text.{
  Text, codes, text_eq, lookup, has_prefix, contains, trim, trim_left, trim_right, trim_space,
  is_space,
}
use ssh_gate_oss.Table.{put, Distinct}
use ssh_gate_oss.Risk.Level.{low}
use ssh_gate_oss.Risk.Command.{Unicode}
use ssh_gate_oss.Requests.Request.{Connection}
use ssh_gate_oss.Requests.Policy.{
  AgentToken, Grants, needs_human_approval, may_bypass_as, agent_bypass_covers, agent_forced_bypass,
  policy_allows, policy_active_at, normalize_bypass_max_risk,
}
use ssh_gate_oss.Gate.Guard.{
  Net, Settings, HttpRequest, guard_http, allowed_host, is_base_host, origin_allowed, check_bearer,
  is_loopback_listen, validate_listen_settings, some_origin,
}
use ssh_gate_oss.Gate.Handler.{
  cut_prefix, match_token, lookup_agent_token, agent_of, authenticate_mcp, handle_mcp, handle_rpc,
  serve_mcp, start_mcp_server, rpc, RpcRequest, token_caller, remember_mcp_agent,
  forget_seen_before, max_mcp_agents, unauthorized,
}
use ssh_gate_oss.Gate.Admission.{Admitted, dispatched-Admitted, bypass_needs_current_token}
use ssh_gate_oss.Gate.Seen.{remember_mcp_agent-bounded}

abbrev is_colon : Text → Option (Text × Text)
is_colon t =
    if text_eq t (codes "localhost:8765") then some (codes "localhost", codes "8765") else none

abbrev go_net : Net
unfolding text_eq
go_net = record {
  parse_url = λ t. none;
  split_host_port = is_colon;
  parse_ip = λ t. if text_eq t (codes "0.0.0.0") then some false else none;
  parse_media_type = λ t. some t;
  equal_fold = text_eq;
  itoa = λ n. codes "8765";
}

abbrev exposed : Settings
exposed = record {
  enabled = true;
  listen_address = codes "0.0.0.0";
  port = 8765;
  base_url = [];
  allowed_origins = [];
  bearer_enabled = true;
}

abbrev post : HttpRequest
post = record {
  method = codes "POST";
  host = codes "localhost:8765";
  origin = [];
  content_type = codes "application/json";
  authorization = codes "Bearer sga_1";
  protocol_version = [];
  user_agent = codes "curl";
  remote = codes "10.0.0.7";
}

abbrev call : RpcRequest
call = record {
  has_id = true;
  jsonrpc = codes "2.0";
  method = codes "tools/call";
  is_rpc_response = false;
}

abbrev bot_token : AgentToken
bot_token = record { agent_name = codes "bot"; token_hash = codes "sga_1"; bypass = true }

abbrev issued : List (Text × AgentToken)
issued = (codes "bot", bot_token) ∷ []

abbrev plain : Text → Text
plain t = t

abbrev runs : Unit {0}
unfolding text_eq lookup has_prefix trim trim_left trim_right trim_space is_space contains put
    guard_http allowed_host is_base_host origin_allowed check_bearer is_loopback_listen some_origin
    validate_listen_settings cut_prefix match_token lookup_agent_token agent_of authenticate_mcp
    handle_mcp handle_rpc serve_mcp start_mcp_server needs_human_approval may_bypass_as
    agent_bypass_covers agent_forced_bypass policy_allows policy_active_at normalize_bypass_max_risk
    remember_mcp_agent forget_seen_before
runs = tt

dispatched-Admitted_example :
    Admitted plain go_net issued post exposed (codes "s") (token_caller bot_token)
unfolding runs
dispatched-Admitted_example =
    dispatched-Admitted plain go_net exposed exposed (codes "s") (codes "s") false 1 [] issued post
      (rpc call) (token_caller bot_token) call refl refl

-- Without its token the same request is unauthorized.
no_token : serve_mcp go_net plain 1 [] [] post exposed (codes "s") (rpc call) ≡ ([], unauthorized)
unfolding runs
no_token = refl

abbrev ascii : Unicode
ascii = record {
  is_print = λ c. true;
  is_format = λ c. false;
  is_mark = λ c. false;
  to_lower = λ c. c;
}

abbrev web_server : Connection
web_server = record {
  id = codes "c1";
  name = codes "web";
  is_serial = false;
  host = codes "10.0.0.1";
  port = 22;
  user = codes "root";
  tags = [];
}

abbrev forced : Grants
forced = record {
  agent_policies =
      (
        codes "bot",
        record {
          approval_bypass = true;
          max_risk = codes "High";
          scope_conn_ids = [];
          expires_at = 50;
        },
      )
      ∷ [];
  agent_tokens = issued;
  require_approval_sudo = true;
  require_approval_prod = true;
  require_approval_write_op = true;
}

bypass_needs_current_token_example :
    (presented : Text) × (t : AgentToken) × (cut_prefix post.authorization (codes "Bearer ")
      ≡ some presented)
    × (lookup (codes "bot") forced.agent_tokens ≡ some t)
    × (t.bypass ≡ true)
    × (t.token_hash ≡ plain (trim_space presented))
unfolding runs
bypass_needs_current_token_example =
    bypass_needs_current_token plain ascii issued post exposed (codes "s") (token_caller bot_token)
      forced 20 web_server low (codes "ls") (codes "bot") false refl refl

remember_mcp_agent-bounded_example :
    (length (remember_mcp_agent 1 (codes "curl") (codes "::1") []) ≤ max_mcp_agents)
    × Distinct (remember_mcp_agent 1 (codes "curl") (codes "::1") [])
remember_mcp_agent-bounded_example =
    remember_mcp_agent-bounded 1 (codes "curl") (codes "::1") [] (omega arith) tt

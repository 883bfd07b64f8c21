-- ===== src/Gate/Admission.antt =====
-- Who reaches the tools of the gateway through the MCP listener.
use ssh_gate_oss.Base.{
  ℕ, ◌≡◌, refl, sym, ◌∙◌, ap, ◌⊎◌, inl, inr, Bool, true, false, List, [], ◌∷◌, ◌++◌, Option, none,
  some, arith, is_empty, Bool-cases, Option-cases,
}
use ssh_gate_oss.Text.{Text, codes, text_eq, lookup, has_prefix, trim_space}
use ssh_gate_oss.Text.Laws.{text_eq_iff}
use ssh_gate_oss.Requests.Request.{Connection}
use ssh_gate_oss.Risk.Level.{Risk}
use ssh_gate_oss.Risk.Command.{Unicode}
use ssh_gate_oss.Requests.Policy.{AgentToken, Caller, Grants, needs_human_approval}
use ssh_gate_oss.Requests.Bypass.{needs_human_approval_iff}
use ssh_gate_oss.Gate.Guard.{
  Net, Settings, HttpRequest, passes, guard_http, allowed_host, origin_allowed, is_json,
  check_bearer, is_loopback_listen, validate_listen_settings,
}
use ssh_gate_oss.Gate.Handler.{
  cut_prefix, match_token, lookup_agent_token, agent_of, authenticate_mcp, nobody, shared_caller,
  token_caller, Body, RpcRequest, dispatched, handle_mcp, handle_rpc, serve_mcp, listening,
  start_mcp_server,
}

-- The token is one of those issued.
abbrev pub Issued : AgentToken → List (Text × AgentToken) → Type 0
Issued t [] = ⊥
Issued t ((k, x) ∷ tokens) = (x ≡ t) ⊎ Issued t tokens

match_token-Issued :
    (hash : Text) (found : Option AgentToken) (tokens : List (Text × AgentToken)) (t : AgentToken)
    → match_token hash found tokens ≡ some t
    → (found ≡ some t) ⊎ (Issued t tokens × (t.token_hash ≡ hash))
unfolding match_token
match_token-Issued hash found [] t h = inl h
match_token-Issued hash found ((k, x) ∷ tokens) t h =
    elim (Bool-cases (text_eq x.token_hash hash)) [
      | inl y ↦ elim (match_token-Issued hash (some x) tokens t (rw y at h)) [
        | inl e ↦ inr (inl (ground arith), ground (arith, text_eq_iff x.token_hash hash))
        | inr (i, e) ↦ inr (inr i, e)
      ]
      | inr n ↦ elim (match_token-Issued hash found tokens t (rw n at h)) [
        | inl e ↦ inl e
        | inr (i, e) ↦ inr (inr i, e)
      ]
    ]

module _ (hash_agent_token : Text → Text) where
  -- The request presents an issued token of the caller's agent.
  pub record Presents (tokens : List (Text × AgentToken)) (r : HttpRequest) (caller : Caller)
      : Type 0 where
    pub presented : Text
    pub authorization : cut_prefix r.authorization (codes "Bearer ") ≡ some presented
    pub is_agent_token : has_prefix (trim_space presented) (codes "sga_") ≡ true
    pub token : AgentToken
    pub issued : Issued token tokens
    pub hashed : token.token_hash ≡ hash_agent_token (trim_space presented)
    pub is_caller : caller ≡ token_caller token

  agent_of-Presents :
      (tokens : List (Text × AgentToken)) (r : HttpRequest) (t : AgentToken)
      → agent_of hash_agent_token tokens r ≡ some t
      → Presents tokens r (token_caller t)
  unfolding agent_of lookup_agent_token
  agent_of-Presents tokens r t h =
      elim (Option-cases (cut_prefix r.authorization (codes "Bearer "))) [
        | inl e ↦ absurd (ground arith)
        | inr (p, e) ↦ elim (Bool-cases (has_prefix (trim_space p) (codes "sga_"))) [
          | inr n ↦ absurd (ground arith)
          | inl y ↦
              elim (match_token-Issued (hash_agent_token (trim_space p)) none tokens t
                (ground arith)) [
                  | inl k ↦ absurd (ground arith)
                  | inr (i, k) ↦ record {
                    presented = p;
                    authorization = e;
                    is_agent_token = y;
                    token = t;
                    issued = i;
                    hashed = k;
                    is_caller = refl;
                  }
                ]
        ]
      ]

  authenticate_mcp-inv :
      (tokens : List (Text × AgentToken)) (r : HttpRequest) (settings : Settings) (shared : Text)
      (caller : Caller)
      → authenticate_mcp hash_agent_token tokens r settings shared ≡ some caller
      → Presents tokens r caller
        ⊎ ((caller ≡ shared_caller)
            × (is_empty shared ≡ false)
            × (r.authorization ≡ codes "Bearer " ++ shared))
        ⊎ ((caller ≡ nobody) × (settings.bearer_enabled ≡ false))
  unfolding authenticate_mcp check_bearer
  authenticate_mcp-inv tokens r settings shared caller h =
      elim (Option-cases (agent_of hash_agent_token tokens r)) [
        | inr (t, e) ↦
            let same : token_caller t ≡ caller = ground arith in
            inl (rw (sym same) (agent_of-Presents tokens r t e))
        | inl e ↦ inr (ground (arith, text_eq_iff r.authorization (codes "Bearer " ++ shared)))
      ]

  module _ (net : Net) where
    -- Why a request reaches the tools.
    pub record Admitted (tokens : List (Text × AgentToken)) (r : HttpRequest) (settings : Settings)
        (shared : Text) (caller : Caller) : Type 0 where
      pub right_host : allowed_host net r.host settings ≡ true
      pub right_origin :
          (is_empty r.origin ≡ true) ⊎ (origin_allowed net r.origin settings.allowed_origins ≡ true)
      pub is_post : r.method ≡ codes "POST"
      pub json : is_json (net.parse_media_type r.content_type) ≡ true
      pub authenticated :
          Presents tokens r caller
          ⊎ ((caller ≡ shared_caller)
              × (is_empty shared ≡ false)
              × (r.authorization ≡ codes "Bearer " ++ shared))
          ⊎ ((caller ≡ nobody) × (is_loopback_listen net settings.listen_address ≡ true))

    guard_http-passes :
        (settings : Settings) (r : HttpRequest)
        → guard_http net settings r ≡ passes
        → r.method ≡ codes "POST"
        → (allowed_host net r.host settings ≡ true)
          × ((is_empty r.origin ≡ true)
              ⊎ (origin_allowed net r.origin settings.allowed_origins ≡ true))
          × (is_json (net.parse_media_type r.content_type) ≡ true)
    unfolding guard_http
    guard_http-passes settings r h m = ground (arith, text_eq_iff r.method (codes "POST"))

    handle_mcp-dispatched :
        (now : ℕ) (agents : List (Text × ℕ)) (tokens : List (Text × AgentToken)) (r : HttpRequest)
        (settings : Settings) (shared : Text) (body : Body) (caller : Caller) (req : RpcRequest)
        → (handle_mcp net hash_agent_token now agents tokens r settings shared body).1
          ≡ dispatched caller req
        → (r.method ≡ codes "POST")
          × (authenticate_mcp hash_agent_token tokens r settings shared ≡ some caller)
    unfolding handle_mcp handle_rpc
    handle_mcp-dispatched now agents tokens r settings shared body caller req h =
        ground (arith, text_eq_iff r.method (codes "POST"))

    serve_mcp-dispatched :
        (now : ℕ) (agents : List (Text × ℕ)) (tokens : List (Text × AgentToken)) (r : HttpRequest)
        (settings : Settings) (shared : Text) (body : Body) (caller : Caller) (req : RpcRequest)
        → (serve_mcp net hash_agent_token now agents tokens r settings shared body).1
          ≡ dispatched caller req
        → (guard_http net settings r ≡ passes)
          × ((handle_mcp net hash_agent_token now agents tokens r settings shared body).1
              ≡ dispatched caller req)
    unfolding serve_mcp
    serve_mcp-dispatched now agents tokens r settings shared body caller req h = ground arith

    start_mcp_server-listening :
        (settings settings' : Settings) (shared shared' : Text) (fails : Bool)
        → start_mcp_server net settings shared fails ≡ listening settings' shared'
        → (is_loopback_listen net settings'.listen_address ≡ true)
          ⊎ (settings'.bearer_enabled ≡ true)
    unfolding start_mcp_server validate_listen_settings
    start_mcp_server-listening settings settings' shared shared' fails h = ground arith

    -- A request that a started listener hands to the tools names a host and an origin that are
    -- allowed, is a POST of JSON, and comes from a caller who presents an issued agent token or the
    -- shared token, or is anonymous on a listener that only this machine reaches.
    pub dispatched-Admitted :
        (settings settings' : Settings) (shared shared' : Text) (fails : Bool) (now : ℕ)
        (agents : List (Text × ℕ)) (tokens : List (Text × AgentToken)) (r : HttpRequest)
        (body : Body) (caller : Caller) (req : RpcRequest)
        → start_mcp_server net settings shared fails ≡ listening settings' shared'
        → (serve_mcp net hash_agent_token now agents tokens r settings' shared' body).1
          ≡ dispatched caller req
        → Admitted tokens r settings' shared' caller
    dispatched-Admitted settings settings' shared shared' fails now agents tokens r body caller req
          s h =
        let (g, k) = serve_mcp-dispatched now agents tokens r settings' shared' body caller req h in
        let (post, auth) =
          handle_mcp-dispatched now agents tokens r settings' shared' body caller req k in
        let (host, origin, json) = guard_http-passes settings' r g post in
        let exposed = start_mcp_server-listening settings settings' shared shared' fails s in
        record {
          right_host = host;
          right_origin = origin;
          is_post = post;
          json = json;
          authenticated = elim (authenticate_mcp-inv tokens r settings' shared' caller auth) [
            | inl p ↦ inl p
            | inr (inl q) ↦ inr (inl q)
            | inr (inr (e, off)) ↦ inr (inr (e, ground arith))
          ];
        }

  unnamed : {b : Bool} → b ≡ true → b ≡ false → ⊥
  unnamed e f = ground arith

  -- A caller whose command runs without approval has presented, as Bearer token, the token that its
  -- agent has when the decision is taken, whatever tokens were issued when it was authenticated.
  pub bypass_needs_current_token :
      (u : Unicode) (tokens : List (Text × AgentToken)) (r : HttpRequest) (settings : Settings)
      (shared : Text) (caller : Caller) (g : Grants) (now : ℕ) (conn : Connection) (risk : Risk)
      (command agent_name : Text) (force_queue : Bool)
      → authenticate_mcp hash_agent_token tokens r settings shared ≡ some caller
      → needs_human_approval u g now conn risk command caller agent_name force_queue ≡ false
      → (presented : Text) × (t : AgentToken) × (cut_prefix r.authorization (codes "Bearer ")
          ≡ some presented)
        × (lookup caller.agent g.agent_tokens ≡ some t)
        × (t.bypass ≡ true)
        × (t.token_hash ≡ hash_agent_token (trim_space presented))
  bypass_needs_current_token u tokens r settings shared caller g now conn risk command agent_name
        force_queue a h =
      let (fq, proved, rest) =
        (needs_human_approval_iff u g now conn risk command caller agent_name force_queue).0 h in
      let (t, e, b, th) = proved.token in
      elim (authenticate_mcp-inv tokens r settings shared caller a) [
        | inl p ↦ (
          p.presented,
          t,
          p.authorization,
          e,
          b,
          th ∙ ap (λ (c : Caller). c.token_hash) p.is_caller ∙ p.hashed,
        )
        | inr (inl (c, k, _)) ↦
            absurd (unnamed (ap (λ (c : Caller). is_empty c.agent) c) proved.named)
        | inr (inr (c, k)) ↦ absurd (unnamed (ap (λ (c : Caller). is_empty c.agent) c) proved.named)
      ]

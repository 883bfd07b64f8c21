-- ===== src/Requests/Safety.antt =====
-- What an approval may run: nothing but a live request, on the host that it was asked for.
use ssh_gate_oss.Base.{
  ℕ, ◌≤◌, ◌<◌, ◌≡◌, refl, ◌⊎◌, inl, inr, Bool, true, false, List, [], ◌∷◌, Option, none, some,
  arith, is_empty, Option-cases, subst, sym, ◌∙◌,
}
use ssh_gate_oss.Text.{Text, trim_space}
use ssh_gate_oss.Text.Laws.{text_eq_iff}
use ssh_gate_oss.Risk.Level.{risk_rank}
use ssh_gate_oss.Risk.Command.{Unicode, classify_risk}
use ssh_gate_oss.Requests.Request.{
  Request, Connection, pending, status_eq_sound, request_expires_at, target_fingerprint,
}
use ssh_gate_oss.Requests.Queue.{
  App, Outcome, moved, missing, refused, not_saved, find_request, status_in, transition_request,
}
use ssh_gate_oss.Requests.Approval.{
  Check, refuse, lapse, ready, Ready, Surroundings, Effect, grants, executes, edited,
  resolve_request_target, check_target, check_reservation, check_run, check_pending, check_approval,
  run_approved, start_approved, approve, start_run,
}

-- The command is run on the connection.
abbrev pub Runs : Connection → Text → List Effect → Type 0
Runs conn command [] = ⊥
Runs conn command (grants agent ∷ es) = Runs conn command es
Runs conn command (executes c t n ∷ es) = ((c ≡ conn) × (t ≡ command)) ⊎ Runs conn command es

run_approved-Runs :
    (s : Surroundings) (g : Bool) (r : Ready) (a : App) (req : Request) (conn : Connection)
    (c : Text)
    → Runs conn c (run_approved s g r a req).2
    → (r.target ≡ some conn) × (r.command ≡ c) × (s.stop_after ≡ none)
unfolding run_approved
run_approved-Runs s g r a req conn c h = ground arith

-- The effects of an approval, once the transition has answered.
abbrev effects_after : Surroundings → Bool → Ready → App → Outcome → List Effect
effects_after s g r a (moved req) = (run_approved s g r a req).2
effects_after s g r a _ = []

start_approved-effects :
    (s : Surroundings) (a : App) (id : Text) (g : Bool) (r : Ready)
    → let t = transition_request s.start_fails (s.meanwhile a) id (pending ∷ []) (start_run s r) in
      (start_approved s a id g r).2 ≡ effects_after s g r t.0 t.1
unfolding start_approved
start_approved-effects s a id g r = ground arith

start_approved-Runs :
    (s : Surroundings) (a : App) (id : Text) (g : Bool) (r : Ready) (conn : Connection) (c : Text)
    → Runs conn c (start_approved s a id g r).2
    → (r.target ≡ some conn)
      × (r.command ≡ c)
      × (s.stop_after ≡ none)
      × ((req : Request) × ((transition_request s.start_fails
              (s.meanwhile a)
              id
              (pending ∷ [])
              (start_run s r)).1
            ≡ moved req))
start_approved-Runs s a id g r conn c h =
    let t = transition_request s.start_fails (s.meanwhile a) id (pending ∷ []) (start_run s r) in
    outcome t.1 (subst (Runs conn c) (start_approved-effects s a id g r) h)
  where
    outcome :
        (o : Outcome)
        → Runs conn c (
            effects_after s g r
              (transition_request s.start_fails (s.meanwhile a) id (pending ∷ []) (start_run s r)).0
              o)
        → (r.target ≡ some conn)
          × (r.command ≡ c)
          × (s.stop_after ≡ none)
          × ((req : Request) × (o ≡ moved req))
    outcome (moved req) k =
        let p = run_approved-Runs s g r _ req conn c k in (p.0, p.1, p.2, (req, refl))
    outcome missing k = elim k [ ]
    outcome (refused q e) k = elim k [ ]
    outcome (not_saved q) k = elim k [ ]

module _ (u : Unicode) (join_host_port : Text → ℕ → Text) (equal_fold : Text → Text → Bool) where
  check_target_open :
      (req : Request) (conn : Connection)
      → check_target u join_host_port equal_fold req (some conn) ≡ none
      → (conn.is_serial ≡ false)
        × (target_fingerprint u join_host_port conn ≡ req.target_fp)
        × (is_empty req.target_fp ≡ false)
  unfolding check_target
  check_target_open req conn h =
      ground (arith, text_eq_iff (target_fingerprint u join_host_port conn) req.target_fp)

  check_run_ready :
      (s : Surroundings) (req : Request) (command : Text) (g : Bool) (t : Option Connection)
      (r : Ready)
      → check_run u join_host_port equal_fold s req command g t ≡ ready r
      → (check_target u join_host_port equal_fold req t ≡ none)
        × (r.target ≡ t)
        × (r.command ≡ command)
        × (r.approved_risk ≡ classify_risk u command)
        × (s.execs_closed ≡ false)
        × (s.stop_before ≡ none)
  unfolding check_run check_reservation
  check_run_ready s req command g t r h = ground arith

  check_pending_ready :
      (s : Surroundings) (req : Request) (command : Text) (allow g : Bool) (r : Ready)
      → check_pending u join_host_port equal_fold s req command allow g ≡ ready r
      → (req.status ≡ pending)
        × (s.now < request_expires_at req)
        × ((command ≡ req.command)
            ⊎ (risk_rank (classify_risk u command) ≤ risk_rank req.risk)
            ⊎ (allow ≡ true))
        × (check_run u join_host_port equal_fold s req command g
              (resolve_request_target equal_fold req s.conns)
            ≡ ready r)
  unfolding check_pending
  check_pending_ready s req command allow g r h =
      ground (arith, status_eq_sound req.status pending, text_eq_iff command req.command)

-- A transition that succeeds found the request in one of the states that it names.
pub transition_request-from :
    (f : Bool) (a : App) (id : Text) (m : Request → Request) (next : Request)
    → (transition_request f a id (pending ∷ []) m).1 ≡ moved next
    → (cur : Request) × (find_request id a.requests ≡ some cur) × (cur.status ≡ pending)
unfolding transition_request status_in
transition_request-from f a id m next h = elim (Option-cases (find_request id a.requests)) [
  | inl e ↦ absurd (ground arith)
  | inr (cur, e) ↦ (cur, e, ground (arith, status_eq_sound cur.status pending))
]

module _ (u : Unicode) (join_host_port : Text → ℕ → Text) (equal_fold : Text → Text → Bool) where
  -- What makes it right to run `command` on `conn` for the request: it waits and is in time, it
  -- resolves to this SSH connection, whose user, host and port are those that the agent asked
  -- about, and the command is its own, no riskier than it, or confirmed by the human.
  pub record Permitted (s : Surroundings) (a : App) (id : Text) (allow : Bool) (conn : Connection)
      (command : Text) (req : Request) : Type 0 where
    pub found : find_request (trim_space id) a.requests ≡ some req
    pub waits : req.status ≡ pending
    pub in_time : s.now < request_expires_at req
    pub resolved : resolve_request_target equal_fold req s.conns ≡ some conn
    pub is_ssh : conn.is_serial ≡ false
    pub same_target : target_fingerprint u join_host_port conn ≡ req.target_fp
    pub known_target : is_empty req.target_fp ≡ false
    pub reviewed :
        (command ≡ req.command)
        ⊎ (risk_rank (classify_risk u command) ≤ risk_rank req.risk)
        ⊎ (allow ≡ true)
    pub not_closing : s.execs_closed ≡ false
    pub not_stopped : (s.stop_before ≡ none) × (s.stop_after ≡ none)
    pub still_waits :
        (cur : Request) × (find_request (trim_space id) (s.meanwhile a).requests ≡ some cur)
        × (cur.status ≡ pending)

  check_approval_ready :
      (s : Surroundings) (a : App) (id command : Text) (allow g : Bool) (r : Ready)
      → check_approval u join_host_port equal_fold s a id command allow g ≡ ready r
      → (req : Request) × (find_request (trim_space id) a.requests ≡ some req)
        × (check_pending u join_host_port equal_fold s req
              (edited u join_host_port equal_fold (trim_space command) req.command)
              allow
              g
            ≡ ready r)
  unfolding check_approval
  check_approval_ready s a id command allow g r h =
      elim (Option-cases (find_request (trim_space id) a.requests)) [
        | inl e ↦ absurd (ground arith)
        | inr (req, e) ↦ (req, e, ground arith)
      ]

  ready-Permitted :
      (s : Surroundings) (a : App) (id command : Text) (allow g : Bool) (r : Ready)
      (conn : Connection) (c : Text)
      → check_approval u join_host_port equal_fold s a id command allow g ≡ ready r
      → Runs conn c (start_approved s a (trim_space id) g r).2
      → (req : Request) × Permitted s a id allow conn c req
  ready-Permitted s a id command allow g r conn c h k =
      let (req, found, p) = check_approval_ready s a id command allow g r h in
      let (waits, in_time, reviewed, q) =
        check_pending_ready u join_host_port equal_fold s req _ allow g r p in
      let (open', target, cmd, risk, closed, before) =
        check_run_ready u join_host_port equal_fold s req _ g _ r q in
      let (at, same, after, (next, started)) =
        start_approved-Runs s a (trim_space id) g r conn c k in
      let resolved : resolve_request_target equal_fold req s.conns ≡ some conn = sym target ∙ at in
      let t = check_target_open u join_host_port equal_fold req conn (rw resolved at open') in
      (
        req,
        record {
          found = found;
          waits = waits;
          in_time = in_time;
          resolved = resolved;
          is_ssh = t.0;
          same_target = t.1;
          known_target = t.2;
          reviewed = rw (sym same ∙ cmd) reviewed;
          not_closing = closed;
          not_stopped = (before, after);
          still_waits =
              transition_request-from s.start_fails (s.meanwhile a) (trim_space id) _ next started;
        },
      )

  -- If an approval runs a command on a connection, then the queue held a request that permits it
  -- (Permitted: waiting, in time, with this target, and reviewed), whatever others do meanwhile.
  pub approve-Permitted :
      (s : Surroundings) (a : App) (id command : Text) (allow g : Bool) (conn : Connection)
      (c : Text)
      → Runs conn c (approve u join_host_port equal_fold s a id command allow g).2
      → (req : Request) × Permitted s a id allow conn c req
  unfolding approve
  approve-Permitted s a id command allow g conn c =
      go (check_approval u join_host_port equal_fold s a id command allow g) refl
    where
      go :
          (k : Check)
          → check_approval u join_host_port equal_fold s a id command allow g ≡ k
          → Runs conn c (approve u join_host_port equal_fold s a id command allow g).2
          → (req : Request) × Permitted s a id allow conn c req
      go (refuse r) e h = absurd (rw (approve, e) at h)
      go lapse e h = absurd (rw (approve, e) at h)
      go (ready r) e h = ready-Permitted s a id command allow g r conn c e (rw (approve, e) at h)

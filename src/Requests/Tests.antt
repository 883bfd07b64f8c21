-- ===== src/Requests/Tests.antt =====
-- Tests of the command requests on one queue.
use ssh_gate_oss.Base.{
  ℕ, ◌≡◌, refl, inl, true, false, ◌≢◌, ◌↔◌, ◌⊎◌, [], ◌∷◌, ◌++◌, none, some, arith,
}
use ssh_gate_oss.Text.{Text, codes, text_eq, trim_space, lookup, contains}
use ssh_gate_oss.Risk.Level.{low}
use ssh_gate_oss.Risk.Command.{Unicode}
use ssh_gate_oss.Requests.Request.{
  Request, Connection, pending, running, rejected, succeeded, request_expires_at,
  target_fingerprint,
}
use ssh_gate_oss.Requests.Queue.{
  App, refused, state_conflict, transition_request, find_request, set_request, status_in, commit,
  delete_command_request, delete_found, is_running,
}
use ssh_gate_oss.Requests.Policy.{
  AgentPolicy, Caller, Grants, needs_human_approval, may_bypass_as, agent_bypass_covers,
  agent_forced_bypass, policy_allows, policy_active_at, normalize_bypass_max_risk, switches_require,
  has_production_tag,
}
use ssh_gate_oss.Requests.Approval.{
  Surroundings, approve, check_approval, check_pending, check_run, check_target, check_grant,
  check_reservation, start_approved, run_approved, resolve_request_target, connection_by_id,
  reject_command, not_pending,
}
use ssh_gate_oss.Requests.Safety.{Permitted, approve-Permitted}
use ssh_gate_oss.Requests.Transitions.{decided_once}
use ssh_gate_oss.Requests.Approval.Execution.{ExecOutcome, finish_request, finish_run}
use ssh_gate_oss.Requests.Finish.{Settled, finish_request-Settled}
use ssh_gate_oss.Requests.Deletion.{MayGo, Unread, TakesOut, delete_command_request-Deletes}
use ssh_gate_oss.Requests.Bypass.{Proved, Covered, needs_human_approval_iff}

abbrev ascii : Unicode
ascii = record {
  is_print = λ c. true;
  is_format = λ c. false;
  is_mark = λ c. false;
  to_lower = λ c. c;
}

abbrev join : Text → ℕ → Text
join host port = host ++ codes ":22"

abbrev web_server : Connection
web_server = record {
  id = codes "c1";
  name = codes "web";
  is_serial = false;
  host = codes "10.0.0.1";
  port = 22;
  user = codes "root";
  tags = [];
}

abbrev waiting : Request
waiting = record {
  id = codes "r1";
  connection_id = codes "c1";
  host = codes "web";
  command = codes "ls";
  executed_command = [];
  requested_by = codes "bot";
  requested_at = some 10;
  id_time = none;
  expires_at = some 1000;
  risk = low;
  approved_risk = none;
  status = pending;
  stdout = [];
  stderr = [];
  decided_by = [];
  decided_at = none;
  finished_at = none;
  exit_code = none;
  error_kind = [];
  target_fp = codes "root@10.0.0.1:22";
  timeout_seconds = 30;
}

abbrev queue : App
queue = record { requests = waiting ∷ []; store = none }

abbrev calm : Surroundings
calm = record {
  now = 20;
  conns = web_server ∷ [];
  bypass_allowed = true;
  has_token = true;
  execs_closed = false;
  stop_before = none;
  stop_after = none;
  bypass_saved = true;
  start_fails = false;
  finish_faults = record { write_fails = false; read_fails = false };
  meanwhile = λ a. a;
  during = λ a. a;
  outcome = record { stdout = []; stderr = []; exit_code = some 0; error = none };
}

abbrev runs : Unit {0}
unfolding approve check_approval check_pending check_run check_target check_grant check_reservation
    start_approved run_approved resolve_request_target connection_by_id request_expires_at
    target_fingerprint text_eq trim_space transition_request find_request set_request status_in
    commit needs_human_approval may_bypass_as agent_bypass_covers agent_forced_bypass policy_allows
    policy_active_at normalize_bypass_max_risk switches_require has_production_tag lookup contains
    reject_command delete_command_request delete_found
runs = tt

abbrev reject_it : Request → Request
reject_it r = record r { status = rejected }

rejected_status : (r : Request) → (reject_it r).status ≢ pending
rejected_status r h = absurd (ground arith)

approve-Permitted_example :
    (req : Request) × Permitted ascii join text_eq calm queue
      (codes "r1")
      false
      web_server
      (codes "ls")
      req
unfolding runs
approve-Permitted_example =
    approve-Permitted ascii join text_eq calm queue (codes "r1") [] false false web_server
      (codes "ls") (inl (refl, refl))

-- An approval of a request that a human has rejected finds it decided.
approve_rejected :
    (approve ascii join text_eq calm
      (reject_command false 15 queue (codes "r1")).0
      (codes "r1")
      []
      false
      false).1.code
    ≡ not_pending
unfolding runs
approve_rejected = refl

decided_once_example :
    let a' = (transition_request false queue (codes "r1") (pending ∷ []) reject_it).0 in
    transition_request false a' (codes "r1") (pending ∷ []) reject_it
    ≡ (a', refused (reject_it waiting) state_conflict)
unfolding runs
decided_once_example =
    decided_once false false queue (codes "r1") reject_it reject_it (reject_it waiting) (λ r. refl)
      rejected_status refl

abbrev grants_to_bot : Grants
grants_to_bot = record {
  agent_policies =
      (
        codes "bot",
        record {
          approval_bypass = true;
          max_risk = codes "Medium";
          scope_conn_ids = [];
          expires_at = 50;
        },
      )
      ∷ [];
  agent_tokens =
      (codes "bot", record { agent_name = codes "bot"; token_hash = codes "h"; bypass = true })
      ∷ [];
  require_approval_sudo = false;
  require_approval_prod = true;
  require_approval_write_op = true;
}

abbrev bot : Caller
bot = record { agent = codes "bot"; shared = false; token_hash = codes "h" }

needs_human_approval_iff_example :
    (needs_human_approval ascii grants_to_bot 20 web_server low
        (codes "ls")
        bot
        (codes " bot ")
        false
      ≡ false)
    ↔ ((false ≡ false)
        × Proved grants_to_bot bot (codes " bot ")
        × ((p : AgentPolicy) × (lookup bot.agent grants_to_bot.agent_policies ≡ some p)
            × Covered p low web_server 20
            × ((p.max_risk ≡ codes "High")
                ⊎ (switches_require ascii grants_to_bot web_server low (codes "ls") ≡ false))))
needs_human_approval_iff_example =
    needs_human_approval_iff ascii grants_to_bot 20 web_server low (codes "ls") bot (codes " bot ")
      false

reader_runs_alone :
    needs_human_approval ascii grants_to_bot 20 web_server low
      (codes "ls")
      bot
      (codes " bot ")
      false
    ≡ false
unfolding runs
reader_runs_alone = refl

-- A queue whose only request runs, with its row.
abbrev started : Request
started = record waiting { status = running }

abbrev running_queue : App
running_queue = record {
  requests = started ∷ [];
  store = some (record { request = started; deleted = false } ∷ []);
}

abbrev ended_well : ExecOutcome
ended_well = record { stdout = codes "ok"; stderr = []; exit_code = some 0; error = none }

finish_request-Settled_example :
    Settled running_queue.store
      (finish_request
        (record { write_fails = true; read_fails = false })
        30
        running_queue
        started
        succeeded
        ended_well).0
      (codes "r1")
      running
      (finish_run 30 succeeded ended_well started)
unfolding runs
finish_request-Settled_example =
    finish_request-Settled (record { write_fails = true; read_fails = false }) 30 running_queue
      started started succeeded ended_well refl refl

delete_command_request-Deletes_example :
    let a' =
      (delete_command_request
        (record { write_fails = false; read_fails = false })
        queue
        (codes "r1")).0 in
    (r : Request) × (find_request (codes "r1") queue.requests ≡ some r)
    × (is_running r.status ≡ false)
    × MayGo queue.store (codes "r1")
    × Unread a'.store (codes "r1")
    × TakesOut (codes "r1") r queue.requests a'.requests
    × ((j : Text) → j ≢ codes "r1" → find_request j a'.requests ≡ find_request j queue.requests)
unfolding runs
delete_command_request-Deletes_example =
    delete_command_request-Deletes (record { write_fails = false; read_fails = false }) queue
      (codes "r1") refl

-- ===== src/Requests/Approval.antt =====
-- Approving, rejecting and expiring a request: approve, RejectCommand, expireRequest,
-- expirePendingRequests, resolveRequestTarget and finishRequest of approval.go, resolveConnection of
-- app.go. The display messages are left out, and so is the branch of approve for the lines of an AI
-- session. What other goroutines do between the steps of approve is an argument.
pub mod Execution
use ssh_gate_oss.Base.{
  ℕ, suc, Bool, true, false, not, ◌&&◌, ◌||◌, List, [], ◌∷◌, Option, none, some, ltb, leb,
  if◌then◌else◌, is_empty, ◌++◌,
}
use ssh_gate_oss.Text.{Text, codes, text_eq, trim_space}
use ssh_gate_oss.Risk.Level.{Risk, risk_rank}
use ssh_gate_oss.Risk.Command.{Unicode, classify_risk}
use ssh_gate_oss.Requests.Request.{
  Request, Connection, Status, pending, running, succeeded, failed, rejected, expired, status_eq,
  request_expires_at, target_fingerprint,
}
use ssh_gate_oss.Requests.Queue.{
  App, Faults, Outcome, moved, missing, refused, not_saved, StoreError, state_conflict,
  storage_failed, find_request, transition_request,
}
use Execution.{
  ExecError, no_target_error, stop_error, StopCause, disconnected, shutting_down, client_gone,
  ExecOutcome, finish_request, decided_by_gui,
}

-- The codes of ActionResult; `done` is OK.
pub data Code : Type 0 where
  done not_found not_pending past_deadline risk_increased serial_not_supported target_changed : Code
  target_unknown required bearer_required closing canceled state_storage exec_failed storage : Code

pub data BypassState : Type 0 where
  no_bypass granted inactive not_granted : BypassState

pub record ActionResult : Type 0 where
  pub code : Code
  pub still_pending : Bool  -- Pending
  pub bypass : BypassState

abbrev pub answer : Code → ActionResult
answer c = record { code = c; still_pending = false; bypass = no_bypass }

abbrev pub answer_pending : Code → ActionResult
answer_pending c = record { code = c; still_pending = true; bypass = no_bypass }

-- connectionByID.
unfoldable pub connection_by_id : Text → List Connection → Option Connection
connection_by_id id [] = none
connection_by_id id (c ∷ cs) = if text_eq c.id id then some c else connection_by_id id cs

-- The first connection with the ID or the name.
unfoldable pub by_id_or_name : Text → List Connection → Option Connection
by_id_or_name ref [] = none
by_id_or_name ref (c ∷ cs) =
    if text_eq c.id ref || text_eq c.name ref then some c else by_id_or_name ref cs

abbrev only : List Connection → Option Connection
only (c ∷ []) = some c
only _ = none

-- strings.EqualFold is Go's; its letter folding is the argument equal_fold.
module _ (equal_fold : Text → Text → Bool) where
  unfoldable pub by_host : Text → List Connection → List Connection
  by_host ref [] = []
  by_host ref (c ∷ cs) =
      let rest = by_host ref cs in
      if not c.is_serial && equal_fold c.host ref then c ∷ rest else rest

  -- findConnection and resolveConnection; the names of the candidates are left out.
  unfoldable pub find_connection : Text → List Connection → Option Connection
  find_connection ref conns =
      let ref' = trim_space ref in
      if is_empty ref'
      then none
      else elim (by_id_or_name ref' conns) [ some c ↦ some c | none ↦ only (by_host ref' conns) ]

  -- resolveRequestTarget.
  unfoldable pub resolve_request_target : Request → List Connection → Option Connection
  resolve_request_target req conns =
      if is_empty req.connection_id
      then find_connection req.host conns
      else connection_by_id req.connection_id conns

-- What the checks of approve find: an answer, a lapsed request, or a run to start.
pub record Ready : Type 0 where
  pub command : Text
  pub approved_risk : Risk
  pub target : Option Connection
  pub agent_name : Text

pub data Check : Type 0 where
  refuse : ActionResult → Check
  lapse : Check
  ready : Ready → Check

-- What approve reads besides the queue, and what happens around it.
pub record Surroundings : Type 0 where
  pub now : ℕ
  pub conns : List Connection
  pub bypass_allowed : Bool  -- GetMCPSettings().BypassAllowed
  pub has_token : Bool  -- agentHasToken
  pub execs_closed : Bool  -- reserveExec refuses
  pub stop_before : Option StopCause  -- stopCauseOf before the transition
  pub stop_after : Option StopCause  -- and behind it
  pub bypass_saved : Bool  -- the result of setAgentApprovalBypass
  pub start_fails : Bool  -- the write of the transition fails
  pub finish_faults : Faults
  pub meanwhile : App → App  -- others, between the checks and the transition
  pub during : App → App  -- others, during the run
  pub outcome : ExecOutcome  -- what executeSSH returns

module _ (u : Unicode) (join_host_port : Text → ℕ → Text) (equal_fold : Text → Text → Bool) where
  -- The checks of the target.
  unfoldable pub check_target : Request → Option Connection → Option Code
  check_target req none = none
  check_target req (some conn) =
      if conn.is_serial
      then some serial_not_supported
      else if not (is_empty req.target_fp)
          && not (text_eq (target_fingerprint u join_host_port conn) req.target_fp)
      then some target_changed
      else if is_empty req.target_fp
      then some target_unknown
      else none

  -- The checks of a grant.
  unfoldable pub check_grant : Bool → Text → Surroundings → Option ActionResult
  check_grant grant_bypass agent_name s =
      if not grant_bypass
      then none
      else if is_empty agent_name
      then some (answer required)
      else if not s.bypass_allowed && not s.has_token
      then some (answer_pending bearer_required)
      else none

  -- The reservation of the run.
  unfoldable pub check_reservation : Surroundings → Option ActionResult
  check_reservation s =
      if s.execs_closed then some (answer_pending closing) else elim s.stop_before [
        | none ↦ none
        | some shutting_down ↦ some (answer_pending closing)
        | some _ ↦ some (answer_pending canceled)
      ]

  abbrev pub edited : Text → Text → Text
  edited command original = if is_empty command then original else command

  unfoldable pub check_run : Surroundings → Request → Text → Bool → Option Connection → Check
  check_run s req command grant_bypass target =
      let agent_name = trim_space req.requested_by in
      elim (check_target req target) [
        | some c ↦ refuse (answer c)
        | none ↦ elim (check_grant grant_bypass agent_name s) [
          | some r ↦ refuse r
          | none ↦ elim (check_reservation s) [
            | some r ↦ refuse r
            | none ↦ ready (record {
              command = command;
              approved_risk = classify_risk u command;
              target = target;
              agent_name = agent_name;
            })
          ]
        ]
      ]

  unfoldable pub check_pending : Surroundings → Request → Text → Bool → Bool → Check
  check_pending s req command allow_risk_increase grant_bypass =
      if not (status_eq req.status pending)
      then refuse (answer not_pending)
      else if leb (request_expires_at req) s.now
      then lapse
      else if not (text_eq command req.command)
          && ltb (risk_rank req.risk) (risk_rank (classify_risk u command))
          && not allow_risk_increase
      then refuse (answer risk_increased)
      else check_run s req command grant_bypass (resolve_request_target equal_fold req s.conns)

  -- approve, up to the transition.
  unfoldable pub check_approval : Surroundings → App → Text → Text → Bool → Bool → Check
  check_approval s a id command allow_risk_increase grant_bypass =
      elim (find_request (trim_space id) a.requests) [
        | none ↦ refuse (answer not_found)
        | some req ↦
            check_pending s req (edited (trim_space command) req.command) allow_risk_increase
              grant_bypass
      ]

-- expireRequest.
unfoldable pub expire_request : Bool → ℕ → App → Text → App
expire_request fault now a id =
    (transition_request fault a id (pending ∷ [])
      (λ r. record r { status = expired; decided_at = some now; finished_at = some now })).0

-- The requests that are past their deadline, read before the first of them is expired.
unfoldable pub overdue : ℕ → List Request → List Text
overdue now [] = []
overdue now (r ∷ rs) =
    let rest = overdue now rs in
    if status_eq r.status pending && leb (request_expires_at r) now then r.id ∷ rest else rest

unfoldable pub expire_all : Bool → ℕ → App → List Text → App
expire_all fault now a [] = a
expire_all fault now a (id ∷ ids) = expire_all fault now (expire_request fault now a id) ids

-- expirePendingRequests.
unfoldable pub expire_pending_requests : Bool → ℕ → App → App
expire_pending_requests fault now a = expire_all fault now a (overdue now a.requests)

-- The mutation of approve.
abbrev pub start_run : Surroundings → Ready → Request → Request
start_run s r req =
    let req' = record req {
      status = running;
      executed_command = r.command;
      approved_risk = some r.approved_risk;
      decided_by = decided_by_gui;
      decided_at = some s.now;
    } in
    elim r.target [
      | none ↦ req'
      | some conn ↦ record req' { connection_id = conn.id; host = conn.name }
    ]

-- What the outside sees of an approval: the grant, and the command that runs on a host.
pub data Effect : Type 0 where
  grants : Text → Effect
  executes : Connection → Text → ℕ → Effect

-- The grant, once the run is started.
unfoldable pub bypass_state : Bool → Surroundings → BypassState
bypass_state grant_bypass s =
    if not grant_bypass
    then no_bypass
    else if not s.bypass_saved
    then not_granted
    else if s.has_token
    then granted
    else inactive

abbrev pub grant_effects : Bool → Surroundings → Text → List Effect
grant_effects grant_bypass s agent_name =
    if grant_bypass && s.bypass_saved then grants agent_name ∷ [] else []

-- What a run that executeSSH has ended is recorded as, and answered with.
abbrev pub run_state : Option ExecError → Status
run_state none = succeeded
run_state (some e) = failed

abbrev pub run_code : Option ExecError → Code
run_code none = done
run_code (some e) = elim e.stop [
  | some shutting_down ↦ closing
  | some cause ↦ if e.is_exit_error then done else canceled
  | none ↦ if e.is_exit_error then done else exec_failed
]

-- finalStateNotSaved overrides the answer of a run that ended.
abbrev saved_code : Code → Outcome → Code
saved_code done (not_saved r) = storage
saved_code c o = c

-- commandResult{} with an error.
abbrev pub plain_failure : ExecError → ExecOutcome
plain_failure e = record { stdout = []; stderr = []; exit_code = none; error = some e }

abbrev stop_code : StopCause → Code
stop_code shutting_down = closing
stop_code _ = canceled

-- approve, behind the transition.
unfoldable pub run_approved :
    Surroundings → Bool → Ready → App → Request → App × ActionResult × List Effect
run_approved s grant_bypass r a req =
    let result = λ (c : Code). record (answer c) { bypass = bypass_state grant_bypass s } in
    let granted_now = grant_effects grant_bypass s r.agent_name in
    let finish = λ (state : Status) (o : ExecOutcome).
      finish_request s.finish_faults s.now (s.during a) req state o in
    elim r.target [
      | none ↦ ((finish failed (plain_failure no_target_error)).0, result not_found, granted_now)
      | some conn ↦ elim s.stop_after [
        | some cause ↦ (
          (finish failed (plain_failure (stop_error cause))).0,
          result (stop_code cause),
          granted_now,
        )
        | none ↦
            let (a', o) = finish (run_state s.outcome.error) s.outcome in
            (
              a',
              result (saved_code (run_code s.outcome.error) o),
              granted_now ++ executes conn r.command req.timeout_seconds ∷ [],
            )
      ]
    ]

-- approve, from the transition on.
unfoldable pub start_approved :
    Surroundings → App → Text → Bool → Ready → App × ActionResult × List Effect
start_approved s a id grant_bypass r =
    let (a', o) =
      transition_request s.start_fails (s.meanwhile a) id (pending ∷ []) (start_run s r) in
    elim o [
      | moved req ↦ run_approved s grant_bypass r a' req
      | missing ↦ (a', answer state_storage, [])
      | refused req state_conflict ↦ (a', answer not_pending, [])
      | refused req storage_failed ↦ (a', answer state_storage, [])
      | not_saved req ↦ (a', answer state_storage, [])
    ]

module _ (u : Unicode) (join_host_port : Text → ℕ → Text) (equal_fold : Text → Text → Bool) where
  -- approve, behind the branch for the lines of an AI session.
  unfoldable pub approve :
      Surroundings → App → Text → Text → Bool → Bool → App × ActionResult × List Effect
  approve s a id command allow_risk_increase grant_bypass =
      elim (check_approval u join_host_port equal_fold s a id command allow_risk_increase
        grant_bypass) [
          | refuse r ↦ (a, r, [])
          | lapse ↦ (expire_request s.start_fails s.now a (trim_space id), answer past_deadline, [])
          | ready r ↦ start_approved s a (trim_space id) grant_bypass r
        ]

abbrev reject_code : Outcome → Code
reject_code (moved r) = done
reject_code missing = not_found
reject_code (refused r state_conflict) = not_pending
reject_code (refused r storage_failed) = state_storage
reject_code (not_saved r) = state_storage

-- RejectCommand.
unfoldable pub reject_command : Bool → ℕ → App → Text → App × Code
reject_command fault now a id =
    let id' = trim_space id in
    let (a', outcome) =
      transition_request fault a id' (pending ∷ [])
        (λ r. record r { status = rejected; decided_by = decided_by_gui; decided_at = some now }) in
    if is_empty id' then (a, not_found) else (a', reject_code outcome)

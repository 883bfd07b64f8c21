-- ===== src/Requests/Approval/Execution.antt =====
-- The outcome of a run: finishRequest and classifyExecError of approval.go, hostKeyErrorKind of hostkey.go.
use ssh_gate_oss.Base.{
  ℕ, Bool, true, false, ◌||◌, [], ◌∷◌, ◌++◌, Option, none, some, if◌then◌else◌, is_empty,
}
use ssh_gate_oss.Text.{Text, codes, has_infix}
use ssh_gate_oss.Requests.Request.{Request, Status, interrupted}
use ssh_gate_oss.Requests.Queue.{App, Faults, Outcome, finalize_request}

-- decidedByGUI.
abbrev pub decided_by_gui : Text
decided_by_gui = codes "gui"

-- errDisconnected, errShuttingDown, errClientGone.
pub data StopCause : Type 0 where
  disconnected shutting_down client_gone : StopCause

-- hostKeyUnknownError and hostKeyMismatchError of hostkey.go.
pub data HostKeyError : Type 0 where
  unknown_key mismatched_key : HostKeyError

-- What errors.Is and errors.As find in the error of a run, and its text.
pub record ExecError : Type 0 where
  pub stop : Option StopCause
  pub is_credential_error : Bool
  pub is_exit_error : Bool
  pub is_deadline_exceeded : Bool
  pub is_context_canceled : Bool
  pub is_passphrase_missing : Bool
  pub host_key_error : Option HostKeyError
  pub message : Text
  pub lower_message : Text  -- strings.ToLower of it

pub record ExecOutcome : Type 0 where
  pub stdout : Text
  pub stderr : Text
  pub exit_code : Option ℕ
  pub error : Option ExecError

-- isStopCause.
unfoldable pub is_stop_cause : ExecError → Bool
is_stop_cause e = elim e.stop [ none ↦ false | some cause ↦ true ]

-- The end of classifyExecError, which reads the text of the error.
unfoldable pub classify_message : Text → Text
classify_message lower =
    if has_infix lower (codes "unable to authenticate")
    then codes "auth"
    else if has_infix lower (codes "host key") || has_infix lower (codes "knownhosts")
    then codes "hostkey"
    else codes "connect"

-- hostKeyErrorKind, and what follows it.
abbrev host_key_kind : Option HostKeyError → Text → Text
host_key_kind (some unknown_key) lower = codes "hostkey_unknown"
host_key_kind (some mismatched_key) lower = codes "hostkey"
host_key_kind none lower = classify_message lower

-- classifyExecError.
unfoldable pub classify_exec_error : ExecError → Text
classify_exec_error e =
    if is_stop_cause e
    then codes "canceled"
    else if e.is_credential_error
    then codes "credential_unavailable"
    else if e.is_exit_error
    then codes "exit_nonzero"
    else if e.is_deadline_exceeded
    then codes "timeout"
    else if e.is_context_canceled
    then codes "canceled"
    else if e.is_passphrase_missing
    then codes "auth"
    else host_key_kind e.host_key_error e.lower_message

-- execErrorMarker.
abbrev pub exec_error_marker : Text
exec_error_marker = codes "[ssh-gete error] "

abbrev pub with_detail : Text → Text → Text
with_detail stderr detail =
    (if is_empty stderr then [] else stderr ++ (10 ∷ [])) ++ (exec_error_marker ++ detail)

-- The stderr that finishRequest records.
unfoldable pub final_stderr : Text → Option ExecError → Text
final_stderr stderr none = stderr
final_stderr stderr (some e) = if e.is_exit_error then stderr else with_detail stderr e.message

abbrev kind_or : Text → Option ExecError → Text
kind_or kind none = kind
kind_or kind (some e) = classify_exec_error e

-- A run that the shutdown stops is recorded as interrupted.
unfoldable pub final_status : Status → Option ExecError → Status
final_status state none = state
final_status state (some e) = elim e.stop [ some shutting_down ↦ interrupted | _ ↦ state ]

-- The mutation of finishRequest; Duration is left out.
unfoldable pub finish_run : ℕ → Status → ExecOutcome → Request → Request
finish_run now state o r = record r {
  status = final_status state o.error;
  stdout = o.stdout;
  stderr = final_stderr o.stderr o.error;
  exit_code = o.exit_code;
  finished_at = some now;
  error_kind = kind_or r.error_kind o.error;
}

-- finishRequest.
unfoldable pub finish_request : Faults → ℕ → App → Request → Status → ExecOutcome → App × Outcome
finish_request faults now a run state o =
    finalize_request faults a run.id run.status (finish_run now state o)

abbrev plain_error : Text → ExecError
plain_error text = record {
  stop = none;
  is_credential_error = false;
  is_exit_error = false;
  is_deadline_exceeded = false;
  is_context_canceled = false;
  is_passphrase_missing = false;
  host_key_error = none;
  message = text;
  lower_message = text;
}

abbrev pub no_target_error : ExecError
no_target_error = plain_error (codes "対象ホストが接続先一覧にありません")

abbrev cause_text : StopCause → Text
cause_text disconnected = codes "接続を切断したため中止しました"
cause_text shutting_down = codes "アプリの終了により中断しました"
cause_text client_gone = codes "MCP クライアントが切断したため中断しました"

-- The stop causes as errors.
abbrev pub stop_error : StopCause → ExecError
stop_error cause = record (plain_error (cause_text cause)) { stop = some cause }

-- ===== src/Session/Gate.antt =====
-- The state of the lines of one AI session: aiLineGate of ai_session_approval.go, with reserve, release,
-- markPending, beginDelivery, finishLine, dropPending, beginClose, markClosed and touch. Each runs
-- under the gate's mutex, so it is one step. The runner and the hooks are left out; the channel runDone
-- and the function cancelRun are whether they are there. Times are nanoseconds.
use ssh_gate_oss.Base.{
  ℕ, ◌+◌, ◌-◌, Bool, true, false, not, ◌&&◌, ◌||◌, List, [], ◌∷◌, ◌++◌, Option, none, some,
  if◌then◌else◌, is_empty, length, drop, ltb,
}
use ssh_gate_oss.Text.{Text, text_eq, text_lt}
use ssh_gate_oss.Table.{put, delete}
use ssh_gate_oss.Requests.Request.{Status}
use ssh_gate_oss.Risk.Words.{Words}
use ssh_gate_oss.Session.Classify.{
  Mode, is_shell, Effect, no_effect, cd_effect, env_effect, state_change_effect, RiskState,
  LineClass,
}

-- The session_state values.
pub data State : Type 0 where
  idle pending_approval busy closing closed : State

abbrev pub is_open : State → Bool
is_open closing = false
is_open closed = false
is_open _ = true

pub data Phase : Type 0 where
  reserved pending running : Phase

abbrev pub is_reserved : Phase → Bool
is_reserved reserved = true
is_reserved _ = false

abbrev pub is_pending : Phase → Bool
is_pending pending = true
is_pending _ = false

abbrev pub is_running : Phase → Bool
is_running running = true
is_running _ = false

-- aiLineRecord.
pub record Line : Type 0 where
  pub request_id : Text
  pub session_id : Text
  pub seq : ℕ
  pub line : Text
  pub mode : Mode
  pub cwd : Text
  pub env : List (Text × Text)
  pub unset : Words
  pub tainted : Bool
  pub class : LineClass
  pub phase : Phase
  pub state : Option Status
  pub exit_code : Option ℕ
  pub queued_at : ℕ
  pub timeout : ℕ
  pub cursor_start : ℕ
  pub cursor_end : ℕ

-- aiLineGate.
pub record Gate : Type 0 where
  pub id : Text
  pub owner : Text
  pub conn_id : Text
  pub target_fp : Text
  pub mode : Mode
  pub state : State
  pub close_reason : Text
  pub cwd : Text
  pub env : List (Text × Text)
  pub unset : Words
  pub tainted : Bool
  pub seq : ℕ
  pub inflight : Option Line
  pub can_cancel : Bool
  pub has_run_done : Bool
  pub history : List Line
  pub expires_at : ℕ
  pub last_active : ℕ

-- newAILineGate.
unfoldable pub new_gate : Text → Text → Text → Text → Mode → Text → ℕ → ℕ → Gate
new_gate id owner conn_id target_fp mode cwd expires_at now = record {
  id = id;
  owner = owner;
  conn_id = conn_id;
  target_fp = target_fp;
  mode = mode;
  state = idle;
  close_reason = [];
  cwd = cwd;
  env = [];
  unset = [];
  tainted = false;
  seq = 0;
  inflight = none;
  can_cancel = false;
  has_run_done = false;
  history = [];
  expires_at = expires_at;
  last_active = now;
}

-- The sorted list of the names of a set.
unfoldable pub insert_name : Text → Words → Words
insert_name n [] = n ∷ []
insert_name n (m ∷ ms) = let rest = insert_name n ms in if text_lt m n then m ∷ rest else n ∷ m ∷ ms

-- unsetListLocked.
unfoldable pub unset_list : Words → Words
unset_list [] = []
unset_list (n ∷ ns) = insert_name n (unset_list ns)

-- delete(g.unset, name), and g.unset[name] = true.
unfoldable pub remove_name : Text → Words → Words
remove_name n [] = []
remove_name n (m ∷ ms) = let rest = remove_name n ms in if text_eq m n then rest else m ∷ rest

abbrev pub add_name : Text → Words → Words
add_name n ns = n ∷ remove_name n ns

-- riskStateLocked.
abbrev pub risk_state : Gate → RiskState
risk_state g = record { mode = g.mode; env = g.env; tainted = g.tainted }

-- The answers of reserve.
pub data Reserved : Type 0 where
  reserved_line : Line → Reserved
  is_closed : Text → Reserved
  is_busy : Text → Phase → Reserved

-- The state that a step leaves where the session is open.
abbrev pub unless_closing : State → State → State
unless_closing s next = if is_open s then next else s

-- reserve; `cursor` is the end of the text, which the hook Cursor answers.
module _ (classify : Text → RiskState → LineClass) where
  abbrev pub new_line : Gate → Text → Text → ℕ → ℕ → ℕ → Line
  new_line g request_id line now timeout cursor = record {
    request_id = request_id;
    session_id = g.id;
    seq = g.seq + 1;
    line = line;
    mode = g.mode;
    cwd = g.cwd;
    env = g.env;
    unset = unset_list g.unset;
    tainted = g.tainted;
    class = classify line (risk_state g);
    phase = reserved;
    state = none;
    exit_code = none;
    queued_at = now;
    timeout = timeout;
    cursor_start = cursor;
    cursor_end = 0;
  }

  abbrev reserve_free : Gate → Text → Text → ℕ → ℕ → ℕ → Option Line → Gate × Reserved
  reserve_free g request_id line now timeout cursor (some l) = (g, is_busy l.request_id l.phase)
  reserve_free g request_id line now timeout cursor none =
      let l = new_line g request_id line now timeout cursor in
      (record g { seq = g.seq + 1; inflight = some l; last_active = now }, reserved_line l)

  unfoldable pub reserve : Gate → Text → Text → ℕ → ℕ → ℕ → Gate × Reserved
  reserve g request_id line now timeout cursor =
      if not (is_open g.state)
      then (g, is_closed g.close_reason)
      else reserve_free g request_id line now timeout cursor g.inflight

-- The line in flight, if it is the one of the request.
abbrev pub own_line : Option Line → Text → Option Line
own_line none request_id = none
own_line (some l) request_id = if text_eq l.request_id request_id then some l else none

-- release.
unfoldable pub release : Gate → Text → Gate
release g request_id = elim (own_line g.inflight request_id) [
  | none ↦ g
  | some l ↦
      if is_reserved l.phase
      then record g { inflight = none; seq = g.seq - 1; state = unless_closing g.state idle }
      else g
]

-- markPending.
unfoldable pub mark_pending : Gate → Text → Gate × Bool
mark_pending g request_id = elim (own_line g.inflight request_id) [
  | none ↦ (g, false)
  | some l ↦
      if is_reserved l.phase && is_open g.state
      then (
        record g { inflight = some (record l { phase = pending }); state = pending_approval },
        true,
      )
      else (g, false)
]

-- beginDelivery.
unfoldable pub begin_delivery : Gate → Text → ℕ → Gate × Option Line
begin_delivery g request_id now = elim (own_line g.inflight request_id) [
  | none ↦ (g, none)
  | some l ↦
      if not (is_open g.state) || is_running l.phase
      then (g, none)
      else let l' = record l { phase = running } in
        (
          record g {
            inflight = some l';
            state = busy;
            can_cancel = true;
            has_run_done = true;
            last_active = now;
          },
          some l',
        )
]

-- aiLineOutcome, as far as the gate reads it, and the final state of the request.
pub record Outcome : Type 0 where
  pub new_cwd : Text
  pub cursor_end : ℕ
  pub final_status : Status
  pub final_exit : Option ℕ

-- aiLineHistoryKeep.
abbrev pub ai_line_history_keep : ℕ
ai_line_history_keep = 8

-- g.history, with a line more.
unfoldable pub remember : Line → List Line → List Line
remember l history =
    let h = history ++ l ∷ [] in
    if ltb ai_line_history_keep (length h) then drop (length h - ai_line_history_keep) h else h

-- The overlay after an env line.
unfoldable pub set_env : List (Text × Text) → Gate → Gate
set_env [] g = g
set_env ((name, value) ∷ set) g =
    set_env set (record g { env = put name value g.env; unset = remove_name name g.unset })

unfoldable pub unset_env : Words → Gate → Gate
unset_env [] g = g
unset_env (name ∷ names) g =
    unset_env names (record g { env = delete name g.env; unset = add_name name g.unset })

abbrev enter : Gate → Text → Gate
enter g cwd = if is_empty cwd then g else record g { cwd = cwd }

abbrev pub is_cd : Effect → Bool
is_cd cd_effect = true
is_cd _ = false

abbrev effect_on : Effect → LineClass → Outcome → Bool → Gate → Gate
effect_on no_effect c o ok g = g
effect_on cd_effect c o ok g = if ok then enter g o.new_cwd else g
effect_on env_effect c o ok g = if ok then unset_env c.env_unset (set_env c.env_set g) else g
effect_on state_change_effect c o ok g =
    if is_shell g.mode && not g.tainted then record g { tainted = true } else g

-- What a delivered line does to the session.
unfoldable pub apply_line : LineClass → Outcome → Bool → Gate → Gate
apply_line c o ok g =
    let g' = effect_on c.effect c o ok g in
    if is_shell g.mode && not (is_cd c.effect) then enter g' o.new_cwd else g'

abbrev free_slot : Gate → Option Line → Gate
free_slot g none = g
free_slot g (some l) = record g { inflight = none; can_cancel = false; has_run_done = false }

-- The line as it is remembered.
abbrev pub finished : Line → Outcome → Line
finished l o = record l {
  state = some o.final_status;
  exit_code = o.final_exit;
  cursor_end = if ltb 0 o.cursor_end then o.cursor_end else l.cursor_end;
}

-- finishLine: the gate, and whether the session became tainted.
unfoldable pub finish_line : Gate → Line → Bool → Outcome → Bool → ℕ → Gate × Bool
finish_line g rec delivered o ok now =
    let g1 = if delivered then apply_line rec.class o ok g else g in
    let g2 = free_slot g1 (own_line g1.inflight rec.request_id) in
    (
      record g2 {
        history = remember (finished rec o) g1.history;
        state = unless_closing g2.state idle;
        last_active = now;
      },
      g1.tainted && not g.tainted,
    )

-- dropPending.
unfoldable pub drop_pending : Gate → Text → Status → Gate × Bool
drop_pending g request_id status = elim (own_line g.inflight request_id) [
  | none ↦ (g, false)
  | some l ↦
      if is_pending l.phase
      then (
        record g {
          inflight = none;
          history = remember (record l { state = some status }) g.history;
          state = unless_closing g.state idle;
        },
        true,
      )
      else (g, false)
]

-- dropPendingOnClose.
unfoldable pub drop_pending_on_close : Gate → Text → Status → Gate
drop_pending_on_close g request_id status = elim (own_line g.inflight request_id) [
  | none ↦ g
  | some l ↦ if is_running l.phase then g else record g {
    inflight = none;
    history = g.history ++ record l { state = some status } ∷ [];
  }
]

-- beginClose: the line in flight, and whether this call is the first.
unfoldable pub begin_close : Gate → Text → Gate × Option Line × Bool
begin_close g reason =
    if is_open g.state
    then (record g { state = closing; close_reason = reason }, g.inflight, true)
    else (g, none, false)

-- markClosed.
unfoldable pub mark_closed : Gate → Gate
mark_closed g = record g { state = closed }

-- touch.
unfoldable pub touch : Gate → ℕ → Gate
touch g now = record g { last_active = now }

-- ===== src/Session/Tests.antt =====
-- The session gate on concrete lines.
use ssh_gate_oss.Base.{
  ℕ, ◌≡◌, refl, Bool, true, false, [], none, some, leb, ◌-◌, map, if◌then◌else◌, ◌&&◌,
}
use ssh_gate_oss.Text.{Text, codes, text_eq}
use ssh_gate_oss.Risk.Level.{low, high}
use ssh_gate_oss.Risk.Command.{Unicode}
use ssh_gate_oss.Requests.Request.{succeeded}
use ssh_gate_oss.Session.Names.{all_safe, env_overlay_unsafe}
use ssh_gate_oss.Session.Classify.{
  Mode, exec, shell, RiskState, LineClass, state_change_effect, no_effect, session_needs_approval,
  normalize_session_bypass_max_risk, classify_session_line,
}
use ssh_gate_oss.Session.Gate.{
  Line, Gate, running, is_running, is_open, risk_state, new_gate, new_line, reserve, reserved_line,
  is_closed, mark_pending, begin_delivery, Outcome, finish_line, begin_close, unset_list,
}
use ssh_gate_oss.Session.Moves.{
  reserves, marks, Reach, here, next, IsCoherent, SameContext, new_gate-IsCoherent,
}
use ssh_gate_oss.Session.Delivery.{
  at_once, after, delivered_in_context, delivered_as_queued, closing_is_final,
}
use ssh_gate_oss.Session.Taint.{IsClean, state_change_taints, unapproved_line-IsClean}

abbrev runs : Unit {0}
unfolding new_gate reserve mark_pending begin_delivery finish_line begin_close text_eq unset_list
    session_needs_approval
runs = tt

abbrev ascii_upper : Text → Text
ascii_upper = map (λ c. if leb 97 c && leb c 122 then c - 32 else c)

abbrev tables : Unicode
tables = record {
  is_print = λ c. true;
  is_format = λ c. false;
  is_mark = λ c. false;
  to_lower = λ c. c;
}

abbrev no_function : Text → Bool
no_function line = false

abbrev classify : Text → RiskState → LineClass
classify = classify_session_line ascii_upper tables no_function

abbrev fresh : Mode → Gate
fresh mode =
    new_gate (codes "s1") (codes "agent") (codes "c1") (codes "fp") mode (codes "/srv") 900 100

abbrev queued : Mode → Gate
queued mode = (reserve classify (fresh mode) (codes "r1") (codes "uptime") 110 60 5).0

abbrev waiting : Mode → Gate
waiting mode = (mark_pending (queued mode) (codes "r1")).0

abbrev uptime : Mode → Line
uptime mode = new_line classify (fresh mode) (codes "r1") (codes "uptime") 110 60 5

abbrev sent : Mode → Line
sent mode = record (uptime mode) { phase = running }

waiting-Reach : (mode : Mode) → Reach classify (fresh mode) (waiting mode)
waiting-Reach mode =
    next (next here (reserves (codes "r1") (codes "uptime") 110 60 5)) (marks (codes "r1"))

new_gate-IsCoherent_example : IsCoherent classify (waiting shell)
new_gate-IsCoherent_example =
    new_gate-IsCoherent classify (codes "s1") (codes "agent") (codes "c1") (codes "fp") shell
      (codes "/srv") 900 100 (waiting shell) (waiting-Reach shell)

sent_after_approval :
    (mode : Mode) → (begin_delivery (waiting mode) (codes "r1") 130).1 ≡ some (sent mode)
unfolding runs
sent_after_approval mode = refl

delivered_in_context_example :
    ((sent exec).request_id ≡ codes "r1")
    × (is_open (waiting exec).state ≡ true)
    × ((k : Line) × ((waiting exec).inflight ≡ some k) × (is_running k.phase ≡ false))
    × SameContext classify (waiting exec) (sent exec)
delivered_in_context_example =
    delivered_in_context classify (codes "s1") (codes "agent") (codes "c1") (codes "fp") exec
      (codes "/srv") 900 100 (waiting exec) (codes "r1") 130 (sent exec) (waiting-Reach exec)
      (sent_after_approval exec)

reserved_uptime :
    reserve classify (fresh exec) (codes "r1") (codes "uptime") 110 60 5
    ≡ (queued exec, reserved_line (uptime exec))
unfolding runs
reserved_uptime = refl

delivered_as_queued_example :
    (sent exec ≡ record (uptime exec) { phase = running })
    × (uptime exec ≡ new_line classify (fresh exec) (codes "r1") (codes "uptime") 110 60 5)
delivered_as_queued_example =
    delivered_as_queued classify (fresh exec) (queued exec) (waiting exec) (codes "r1")
      (codes "uptime") 110 60 5 130 (uptime exec) (sent exec) reserved_uptime
      (after at_once (marks (codes "r1")) tt) (sent_after_approval exec)

abbrev closed_gate : Gate
closed_gate = (begin_close (waiting shell) (codes "owner")).0

closing_is_final_example :
    ((id line : Text) (now timeout cursor : ℕ)
      → reserve classify closed_gate id line now timeout cursor
        ≡ (closed_gate, is_closed closed_gate.close_reason))
    × ((id : Text) → mark_pending closed_gate id ≡ (closed_gate, false))
    × ((id : Text) (now : ℕ) → begin_delivery closed_gate id now ≡ (closed_gate, none))
closing_is_final_example =
    closing_is_final classify (waiting shell) closed_gate (codes "owner") here

abbrev outcome : Outcome
outcome = record {
  new_cwd = codes "/tmp";
  cursor_end = 40;
  final_status = succeeded;
  final_exit = some 0;
}

abbrev class_of : LineClass
class_of = record {
  risk = high;
  base_risk = low;
  reasons = [];
  effect = state_change_effect;
  cd_target = [];
  env_set = [];
  env_unset = [];
  uses_sudo = false;
  cwd_persisted = true;
  notice = [];
}

abbrev alias_line : Line
alias_line = record (sent shell) { class = class_of }

abbrev tainted_gate : Gate
tainted_gate = (finish_line (waiting shell) alias_line true outcome true 150).0

fresh_mode : (waiting shell).mode ≡ shell
unfolding runs
fresh_mode = refl

state_change_taints_example :
    session_needs_approval ascii_upper
      (risk_state tainted_gate)
      (record class_of { effect = no_effect; risk = low })
      (codes "Medium")
    ≡ true
state_change_taints_example =
    state_change_taints classify ascii_upper (waiting shell) tainted_gate alias_line outcome true
      150 (record class_of { effect = no_effect; risk = low }) (codes "Medium") fresh_mode refl here

abbrev mild_line : Line
mild_line = record (sent shell) { class = record class_of { effect = no_effect; risk = low } }

mild_needs_none :
    session_needs_approval ascii_upper (risk_state (waiting shell)) mild_line.class (codes "Low")
    ≡ false
unfolding runs normalize_session_bypass_max_risk
mild_needs_none = refl

waiting-IsClean : IsClean ascii_upper (waiting shell)
unfolding runs env_overlay_unsafe all_safe
waiting-IsClean = record { untainted = refl; safe_env = refl }

unapproved_line-IsClean_example :
    IsClean ascii_upper (finish_line (waiting shell) mild_line true outcome true 150).0
unapproved_line-IsClean_example =
    unapproved_line-IsClean ascii_upper (waiting shell) mild_line outcome true true 150
      (codes "Low") mild_needs_none waiting-IsClean

-- ===== src/Session/Moves.antt =====
-- The steps that the gate of a session takes, in any order, and what holds after all of them.
use ssh_gate_oss.Base.{
  ℕ, ◌≤◌, ◌≡◌, refl, inl, inr, ◌+◌, ◌-◌, zero, suc, Bool, true, false, List, [], ◌∷◌, ◌++◌, Option,
  none, some, arith, length, drop, length-append, Option-cases,
}
use ssh_gate_oss.Text.{Text}
use ssh_gate_oss.Text.Laws.{text_eq_iff, text_eq_refl}
use ssh_gate_oss.Table.{put, delete}
use ssh_gate_oss.Risk.Words.{Words}
use ssh_gate_oss.Requests.Request.{Status}
use ssh_gate_oss.Session.Classify.{Mode, RiskState, LineClass}
use ssh_gate_oss.Session.Gate.{
  State, idle, pending_approval, busy, closing, closed, is_open, running, is_reserved, is_pending,
  is_running, Line, Gate, risk_state, new_gate, own_line, reserve, release, mark_pending,
  begin_delivery, Outcome, remember, finished, ai_line_history_keep, apply_line, finish_line,
  drop_pending, drop_pending_on_close, set_env, unset_env, add_name, remove_name, begin_close,
  mark_closed, touch, unset_list,
}

-- The phase of the line in flight fits the state of the session.
abbrev fits : State → Option Line → Bool
fits idle none = true
fits idle (some l) = is_reserved l.phase
fits pending_approval none = false
fits pending_approval (some l) = is_pending l.phase
fits busy none = false
fits busy (some l) = is_running l.phase
fits closing l = true
fits closed l = true

abbrev runs_line : Option Line → Bool
runs_line none = false
runs_line (some l) = is_running l.phase

-- A session that closes may keep one line more.
abbrev history_limit : Bool → Option Line → ℕ
history_limit true l = ai_line_history_keep
history_limit false (some l) = ai_line_history_keep
history_limit false none = ai_line_history_keep + 1

module _ (classify : Text → RiskState → LineClass) where
  -- The line was read in the state that the session is in.
  pub record SameContext (g : Gate) (l : Line) : Type 0 where
    pub same_mode : l.mode ≡ g.mode
    pub same_cwd : l.cwd ≡ g.cwd
    pub same_env : l.env ≡ g.env
    pub same_unset : l.unset ≡ unset_list g.unset
    pub same_taint : l.tainted ≡ g.tainted
    pub last_seq : l.seq ≡ g.seq
    pub same_class : l.class ≡ classify l.line (risk_state g)

  abbrev InContext : Gate → Option Line → Type 0
  InContext g none = Unit
  InContext g (some l) = SameContext g l

  pub record IsCoherent (g : Gate) : Type 0 where
    pub phase_fits : fits g.state g.inflight ≡ true
    pub done_fits : g.has_run_done ≡ runs_line g.inflight
    pub cancel_fits : g.can_cancel ≡ runs_line g.inflight
    pub short_history : length g.history ≤ history_limit (is_open g.state) g.inflight
    pub in_context : InContext g g.inflight

  -- What may happen to the gate. A line that was delivered is finished by the run that it began; a
  -- line that a closing session refused to deliver is finished undelivered.
  pub data Move : Gate → Gate → Type 0 where
    reserves :
        {g : Gate} (id line : Text) (now timeout cursor : ℕ)
        → Move g (reserve classify g id line now timeout cursor).0
    releases : {g : Gate} (id : Text) → Move g (release g id)
    marks : {g : Gate} (id : Text) → Move g (mark_pending g id).0
    delivers : {g : Gate} (id : Text) (now : ℕ) → Move g (begin_delivery g id now).0
    finishes :
        {g : Gate} (l : Line) (o : Outcome) (ok : Bool) (now : ℕ)
        → g.inflight ≡ some l
        → l.phase ≡ running
        → Move g (finish_line g l true o ok now).0
    aborts :
        {g : Gate} (l : Line) (o : Outcome) (now : ℕ)
        → g.inflight ≡ some l
        → is_open g.state ≡ false
        → Move g (finish_line g l false o false now).0
    drops : {g : Gate} (id : Text) (status : Status) → Move g (drop_pending g id status).0
    drops_on_close :
        {g : Gate} (id : Text) (status : Status)
        → is_open g.state ≡ false
        → Move g (drop_pending_on_close g id status)
    closes : {g : Gate} (reason : Text) → Move g (begin_close g reason).0
    ends : {g : Gate} → Move g (mark_closed g)
    touches : {g : Gate} (now : ℕ) → Move g (touch g now)

  pub data Reach (g : Gate) : Gate → Type 0 where
    here : Reach g g
    next : {h k : Gate} → Reach g h → Move h k → Reach g k

length-drop {ℓ} : {A : Type ℓ} (n : ℕ) (xs : List A) → length (drop n xs) ≡ length xs - n
length-drop zero xs = omega arith
length-drop (suc n) [] = omega arith
length-drop (suc n) (x ∷ xs) = omega (arith, length-drop n xs)

remember-length : (l : Line) (h : List Line) → length (remember l h) ≤ ai_line_history_keep
unfolding remember
remember-length l h =
    ground (arith, length-drop (length (h ++ l ∷ []) - ai_line_history_keep) (h ++ l ∷ []))

pub own_line-inv :
    (o : Option Line) (id : Text) (l : Line)
    → own_line o id ≡ some l
    → (o ≡ some l) × (l.request_id ≡ id)
own_line-inv none id l h = cc
own_line-inv (some k) id l h = ground (arith, text_eq_iff k.request_id id)

abbrev Keeps : Gate → Gate → Type 0
Keeps g g' =
    (g'.state ≡ g.state)
    × (g'.inflight ≡ g.inflight)
    × (g'.history ≡ g.history)
    × (g'.tainted ≡ g.tainted)
    × (g'.mode ≡ g.mode)

set_env-Keeps : (set : List (Text × Text)) (g : Gate) → Keeps g (set_env set g)
unfolding set_env
set_env-Keeps [] g = ground arith
set_env-Keeps ((name, value) ∷ set) g = ground (
  arith,
  set_env-Keeps set (record g { env = put name value g.env; unset = remove_name name g.unset }),
)

unset_env-Keeps : (names : Words) (g : Gate) → Keeps g (unset_env names g)
unfolding unset_env
unset_env-Keeps [] g = ground arith
unset_env-Keeps (name ∷ names) g = ground (
  arith,
  unset_env-Keeps names (record g { env = delete name g.env; unset = add_name name g.unset }),
)

module _ (classify : Text → RiskState → LineClass) where
  reserve-IsCoherent :
      (g : Gate) (id line : Text) (now timeout cursor : ℕ)
      → IsCoherent classify g
      → IsCoherent classify (reserve classify g id line now timeout cursor).0
  unfolding reserve
  reserve-IsCoherent g id line now timeout cursor v = ground arith

  release-IsCoherent :
      (g : Gate) (id : Text) → IsCoherent classify g → IsCoherent classify (release g id)
  unfolding release
  release-IsCoherent g id v = ground (arith, own_line-inv g.inflight id)

  mark_pending-IsCoherent :
      (g : Gate) (id : Text) → IsCoherent classify g → IsCoherent classify (mark_pending g id).0
  unfolding mark_pending
  mark_pending-IsCoherent g id v = ground (arith, own_line-inv g.inflight id)

  begin_delivery-IsCoherent :
      (g : Gate) (id : Text) (now : ℕ)
      → IsCoherent classify g
      → IsCoherent classify (begin_delivery g id now).0
  unfolding begin_delivery
  begin_delivery-IsCoherent g id now v = ground (arith, own_line-inv g.inflight id)

  drop_pending-IsCoherent :
      (g : Gate) (id : Text) (status : Status)
      → IsCoherent classify g
      → IsCoherent classify (drop_pending g id status).0
  unfolding drop_pending
  drop_pending-IsCoherent g id status v = elim (Option-cases (own_line g.inflight id)) [
    | inl e ↦ ground arith
    | inr (l, e) ↦ ground (
      arith,
      own_line-inv g.inflight id l e,
      remember-length (record l { state = some status }) g.history,
    )
  ]

  drop_pending_on_close-IsCoherent :
      (g : Gate) (id : Text) (status : Status)
      → is_open g.state ≡ false
      → IsCoherent classify g
      → IsCoherent classify (drop_pending_on_close g id status)
  unfolding drop_pending_on_close
  drop_pending_on_close-IsCoherent g id status c v = elim (Option-cases (own_line g.inflight id)) [
    | inl e ↦ ground arith
    | inr (l, e) ↦ ground (
      arith,
      own_line-inv g.inflight id l e,
      length-append g.history (record l { state = some status } ∷ []),
    )
  ]

  begin_close-IsCoherent :
      (g : Gate) (reason : Text)
      → IsCoherent classify g
      → IsCoherent classify (begin_close g reason).0
  unfolding begin_close
  begin_close-IsCoherent g reason v = ground arith

  mark_closed-IsCoherent : (g : Gate) → IsCoherent classify g → IsCoherent classify (mark_closed g)
  unfolding mark_closed
  mark_closed-IsCoherent g v = ground arith

  touch-IsCoherent :
      (g : Gate) (now : ℕ) → IsCoherent classify g → IsCoherent classify (touch g now)
  unfolding touch
  touch-IsCoherent g now v = ground arith

  -- What a delivered line leaves alone.
  pub apply_line-keeps :
      (c : LineClass) (o : Outcome) (ok : Bool) (g : Gate)
      → let g' = apply_line c o ok g in
        (g'.state ≡ g.state) × (g'.inflight ≡ g.inflight) × (g'.history ≡ g.history)
  unfolding apply_line
  apply_line-keeps c o ok g =
      ground (arith, set_env-Keeps c.env_set g, unset_env-Keeps c.env_unset (set_env c.env_set g))

  finish_line-IsCoherent :
      (g : Gate) (l : Line) (delivered : Bool) (o : Outcome) (ok : Bool) (now : ℕ)
      → g.inflight ≡ some l
      → IsCoherent classify g
      → IsCoherent classify (finish_line g l delivered o ok now).0
  unfolding finish_line
  finish_line-IsCoherent g l delivered o ok now e v = ground (
    arith,
    apply_line-keeps l.class o ok g,
    text_eq_refl l.request_id,
    remember-length (finished l o) g.history,
  )

  Move-IsCoherent : {g h : Gate} → Move classify g h → IsCoherent classify g → IsCoherent classify h
  Move-IsCoherent {g} (reserves id line now timeout cursor) v =
      reserve-IsCoherent g id line now timeout cursor v
  Move-IsCoherent {g} (releases id) v = release-IsCoherent g id v
  Move-IsCoherent {g} (marks id) v = mark_pending-IsCoherent g id v
  Move-IsCoherent {g} (delivers id now) v = begin_delivery-IsCoherent g id now v
  Move-IsCoherent {g} (finishes l o ok now e r) v = finish_line-IsCoherent g l true o ok now e v
  Move-IsCoherent {g} (aborts l o now e c) v = finish_line-IsCoherent g l false o false now e v
  Move-IsCoherent {g} (drops id status) v = drop_pending-IsCoherent g id status v
  Move-IsCoherent {g} (drops_on_close id status c) v =
      drop_pending_on_close-IsCoherent g id status c v
  Move-IsCoherent {g} (closes reason) v = begin_close-IsCoherent g reason v
  Move-IsCoherent {g} ends v = mark_closed-IsCoherent g v
  Move-IsCoherent {g} (touches now) v = touch-IsCoherent g now v

  Reach-IsCoherent :
      {g h : Gate} → IsCoherent classify g → Reach classify g h → IsCoherent classify h
  Reach-IsCoherent v here = v
  Reach-IsCoherent v (next r m) = Move-IsCoherent m (Reach-IsCoherent v r)

  -- Whatever happens to a new session, its phase fits its state, a run is open exactly while a line
  -- runs, at most eight finished lines are kept (nine while it closes), and the line in flight was
  -- read in the very directory, environment, taint and number that the session has.
  pub new_gate-IsCoherent :
      (id owner conn_id target_fp : Text) (mode : Mode) (cwd : Text) (expires_at now : ℕ) (g : Gate)
      → Reach classify (new_gate id owner conn_id target_fp mode cwd expires_at now) g
      → IsCoherent classify g
  unfolding new_gate
  new_gate-IsCoherent id owner conn_id target_fp mode cwd expires_at now g r =
      Reach-IsCoherent
        (record {
          phase_fits = refl;
          done_fits = refl;
          cancel_fits = refl;
          short_history = omega arith;
          in_context = tt;
        })
        r

-- ===== src/Session/Taint.antt =====
-- What taints a session, and what does not: a line that changes the state of the shell makes every
-- later line wait for approval, and a line that was sent without approval leaves the session as it was.
use ssh_gate_oss.Base.{ℕ, ◌≡◌, refl, Bool, true, false, List, [], ◌∷◌, arith}
use ssh_gate_oss.Text.{Text}
use ssh_gate_oss.Table.{put, delete}
use ssh_gate_oss.Risk.Words.{Words}
use ssh_gate_oss.Session.Names.{
  all_safe, names_of, session_env_name_class, is_safe, env_overlay_unsafe,
}
use ssh_gate_oss.Session.Classify.{
  shell, state_change_effect, RiskState, LineClass, session_needs_approval,
}
use ssh_gate_oss.Session.Gate.{
  Line, Gate, risk_state, reserve, release, mark_pending, begin_delivery, Outcome, apply_line,
  finish_line, drop_pending, drop_pending_on_close, begin_close, mark_closed, touch, set_env,
  unset_env, add_name, remove_name,
}
use ssh_gate_oss.Session.Moves.{
  Move, reserves, releases, marks, delivers, finishes, aborts, drops, drops_on_close, closes, ends,
  touches, Reach, here, next,
}

-- The mode of the session, and its taint, once there.
abbrev StaysTainted : Gate → Type 0
StaysTainted g = (g.mode ≡ shell) × (g.tainted ≡ true)

set_env-kept :
    (set : List (Text × Text)) (g : Gate)
    → ((set_env set g).mode ≡ g.mode) × ((set_env set g).tainted ≡ g.tainted)
unfolding set_env
set_env-kept [] g = (refl, refl)
set_env-kept ((n, v) ∷ set) g =
    set_env-kept set (record g { env = put n v g.env; unset = remove_name n g.unset })

unset_env-kept :
    (names : Words) (g : Gate)
    → ((unset_env names g).mode ≡ g.mode) × ((unset_env names g).tainted ≡ g.tainted)
unfolding unset_env
unset_env-kept [] g = (refl, refl)
unset_env-kept (n ∷ names) g =
    unset_env-kept names (record g { env = delete n g.env; unset = add_name n g.unset })

apply_line-StaysTainted :
    (c : LineClass) (o : Outcome) (ok : Bool) (g : Gate)
    → StaysTainted g
    → StaysTainted (apply_line c o ok g)
unfolding apply_line
apply_line-StaysTainted c o ok g t =
    ground (arith, set_env-kept c.env_set g, unset_env-kept c.env_unset (set_env c.env_set g))

apply_line-taints :
    (c : LineClass) (o : Outcome) (ok : Bool) (g : Gate)
    → g.mode ≡ shell
    → c.effect ≡ state_change_effect
    → StaysTainted (apply_line c o ok g)
unfolding apply_line
apply_line-taints c o ok g m e = ground arith

module _ (classify : Text → RiskState → LineClass) where
  Move-StaysTainted : {g h : Gate} → Move classify g h → StaysTainted g → StaysTainted h
  unfolding reserve release mark_pending begin_delivery finish_line drop_pending
      drop_pending_on_close begin_close mark_closed touch
  Move-StaysTainted {g} (reserves k line now timeout cursor) t = ground arith
  Move-StaysTainted {g} (releases k) t = ground arith
  Move-StaysTainted {g} (marks k) t = ground arith
  Move-StaysTainted {g} (delivers k now) t = ground arith
  Move-StaysTainted {g} (finishes l o ok now e r) t =
      ground (arith, apply_line-StaysTainted l.class o ok g)
  Move-StaysTainted {g} (aborts l o now e c) t = ground arith
  Move-StaysTainted {g} (drops k status) t = ground arith
  Move-StaysTainted {g} (drops_on_close k status c) t = ground arith
  Move-StaysTainted {g} (closes reason) t = ground arith
  Move-StaysTainted {g} ends t = t
  Move-StaysTainted {g} (touches now) t = t

  Reach-StaysTainted : {g h : Gate} → Reach classify g h → StaysTainted g → StaysTainted h
  Reach-StaysTainted here t = t
  Reach-StaysTainted (next r m) t = Move-StaysTainted m (Reach-StaysTainted r t)

  finish_line-StaysTainted :
      (g : Gate) (l : Line) (o : Outcome) (ok : Bool) (now : ℕ)
      → g.mode ≡ shell
      → l.class.effect ≡ state_change_effect
      → StaysTainted (finish_line g l true o ok now).0
  unfolding finish_line
  finish_line-StaysTainted g l o ok now m e = ground (arith, apply_line-taints l.class o ok g)

  needs_approval_tainted :
      (to_upper : Text → Text) (st : RiskState) (c : LineClass) (limit : Text)
      → st.tainted ≡ true
      → session_needs_approval to_upper st c limit ≡ true
  unfolding session_needs_approval
  needs_approval_tainted to_upper st c limit t = ground arith

  -- After a delivered line that changes the state of a shell session, however it ended and whatever
  -- happened since, every line of the session waits for approval, whatever its class and whatever
  -- risk may bypass the approval.
  pub state_change_taints :
      (to_upper : Text → Text) (g h : Gate) (l : Line) (o : Outcome) (ok : Bool) (now : ℕ)
      (c : LineClass) (limit : Text)
      → g.mode ≡ shell
      → l.class.effect ≡ state_change_effect
      → Reach classify (finish_line g l true o ok now).0 h
      → session_needs_approval to_upper (risk_state h) c limit ≡ true
  state_change_taints to_upper g h l o ok now c limit m e r =
      let (m', t) = Reach-StaysTainted r (finish_line-StaysTainted g l o ok now m e) in
      needs_approval_tainted to_upper (risk_state h) c limit t

-- The untainted session whose overlay has only safe names.
pub record IsClean (to_upper : Text → Text) (g : Gate) : Type 0 where
  pub untainted : g.tainted ≡ false
  pub safe_env : env_overlay_unsafe to_upper g.env ≡ false

module _ (to_upper : Text → Text) where
  put-safe :
      (n v : Text) (env : List (Text × Text))
      → is_safe (session_env_name_class to_upper n) ≡ true
      → all_safe to_upper (names_of env) ≡ true
      → all_safe to_upper (names_of (put n v env)) ≡ true
  unfolding put all_safe
  put-safe n v [] s t = ground arith
  put-safe n v ((k, w) ∷ env) s t = ground (arith, put-safe n v env s)

  delete-safe :
      (n : Text) (env : List (Text × Text))
      → all_safe to_upper (names_of env) ≡ true
      → all_safe to_upper (names_of (delete n env)) ≡ true
  unfolding delete all_safe
  delete-safe n [] t = refl
  delete-safe n ((k, w) ∷ env) t = ground (arith, delete-safe n env)

  set_env-safe :
      (set : List (Text × Text)) (g : Gate)
      → all_safe to_upper (names_of set) ≡ true
      → all_safe to_upper (names_of g.env) ≡ true
      → all_safe to_upper (names_of (set_env set g).env) ≡ true
  unfolding set_env all_safe
  set_env-safe [] g s t = t
  set_env-safe ((n, v) ∷ set) g s t =
      set_env-safe set (record g { env = put n v g.env; unset = remove_name n g.unset })
        (ground arith) (put-safe n v g.env (ground arith) t)

  unset_env-safe :
      (names : Words) (g : Gate)
      → all_safe to_upper (names_of g.env) ≡ true
      → all_safe to_upper (names_of (unset_env names g).env) ≡ true
  unfolding unset_env
  unset_env-safe [] g t = t
  unset_env-safe (n ∷ names) g t =
      unset_env-safe names (record g { env = delete n g.env; unset = add_name n g.unset })
        (delete-safe n g.env t)

  -- A line that needs no approval in its session leaves the session clean where it was clean, whatever
  -- the host answers: only an approved line taints it or puts an unsafe name into its environment.
  pub unapproved_line-IsClean :
      (g : Gate) (l : Line) (o : Outcome) (delivered ok : Bool) (now : ℕ) (limit : Text)
      → session_needs_approval to_upper (risk_state g) l.class limit ≡ false
      → IsClean to_upper g
      → IsClean to_upper (finish_line g l delivered o ok now).0
  unfolding finish_line apply_line session_needs_approval env_overlay_unsafe
  unapproved_line-IsClean g l o delivered ok now limit n v = ground (
    arith,
    set_env-kept l.class.env_set g,
    unset_env-kept l.class.env_unset (set_env l.class.env_set g),
    set_env-safe l.class.env_set g,
    unset_env-safe l.class.env_unset (set_env l.class.env_set g),
  )

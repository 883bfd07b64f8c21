-- ===== src/Session/Delivery.antt =====
-- What reaches the host: the line that was queued, in the state that it was read in, and nothing once
-- the session closes.
use ssh_gate_oss.Base.{
  ℕ, ◌≡◌, ◌≢◌, refl, sym, ◌∙◌, ap, subst, inl, inr, true, false, Option, none, some, arith,
  Option-cases,
}
use ssh_gate_oss.Text.{Text}
use ssh_gate_oss.Text.Laws.{text_eq_refl}
use ssh_gate_oss.Session.Classify.{Mode, RiskState, LineClass}
use ssh_gate_oss.Session.Gate.{
  is_open, running, is_running, Line, Gate, new_gate, new_line, own_line, reserve, reserved_line,
  is_closed, release, mark_pending, begin_delivery, finish_line, drop_pending,
  drop_pending_on_close, begin_close, mark_closed, touch,
}
use ssh_gate_oss.Session.Moves.{
  Move, reserves, releases, marks, delivers, finishes, aborts, drops, drops_on_close, closes, ends,
  touches, Reach, here, next, SameContext, IsCoherent, own_line-inv, apply_line-keeps,
  new_gate-IsCoherent,
}

begin_delivery-inv :
    (g : Gate) (id : Text) (now : ℕ) (l : Line)
    → (begin_delivery g id now).1 ≡ some l
    → (k : Line) × (g.inflight ≡ some k)
      × (k.request_id ≡ id)
      × (l ≡ record k { phase = running })
      × (is_open g.state ≡ true)
      × (is_running k.phase ≡ false)
unfolding begin_delivery
begin_delivery-inv g id now l h = elim (Option-cases (own_line g.inflight id)) [
  | inl e ↦ absurd (ground arith)
  | inr (k, e) ↦
      let (held, own) = own_line-inv g.inflight id k e in
      (k, held, own, ground arith, ground arith, ground arith)
]

module _ (classify : Text → RiskState → LineClass) where
  -- A line that is delivered to the host is the one of the request, was not delivered before, and is
  -- sent in the directory and environment that the session has at that moment and was classified by.
  pub delivered_in_context :
      (id owner conn_id target_fp : Text) (mode : Mode) (cwd : Text) (expires_at opened : ℕ)
      (g : Gate) (request_id : Text) (now : ℕ) (l : Line)
      → Reach classify (new_gate id owner conn_id target_fp mode cwd expires_at opened) g
      → (begin_delivery g request_id now).1 ≡ some l
      → (l.request_id ≡ request_id)
        × (is_open g.state ≡ true)
        × ((k : Line) × (g.inflight ≡ some k) × (is_running k.phase ≡ false))
        × SameContext classify g l
  delivered_in_context id owner conn_id target_fp mode cwd expires_at opened g request_id now l r
        h =
      let (k, held, own, same, at, fresh) = begin_delivery-inv g request_id now l h in
      let v =
        new_gate-IsCoherent classify id owner conn_id target_fp mode cwd expires_at opened g r in
      let c : SameContext classify g k = context k held v in
      (
        ap (λ (q : Line). q.request_id) same ∙ own,
        at,
        (k, held, fresh),
        subst (SameContext classify g) (sym same) (record {
          same_mode = c.same_mode;
          same_cwd = c.same_cwd;
          same_env = c.same_env;
          same_unset = c.same_unset;
          same_taint = c.same_taint;
          last_seq = c.last_seq;
          same_class = c.same_class;
        }),
      )
    where
      context : (k : Line) → g.inflight ≡ some k → IsCoherent classify g → SameContext classify g k
      context k e v = ground arith

  -- A move that does not reserve a line for the request.
  abbrev pub NotReserving : (id : Text) {g h : Gate} → Move classify g h → Type 0
  NotReserving id (reserves k line now timeout cursor) = k ≢ id
  NotReserving id (releases k) = Unit
  NotReserving id (marks k) = Unit
  NotReserving id (delivers k now) = Unit
  NotReserving id (finishes l o ok now e r) = Unit
  NotReserving id (aborts l o now e c) = Unit
  NotReserving id (drops k status) = Unit
  NotReserving id (drops_on_close k status c) = Unit
  NotReserving id (closes reason) = Unit
  NotReserving id ends = Unit
  NotReserving id (touches now) = Unit

  pub data Meanwhile (id : Text) (g : Gate) : Gate → Type 0 where
    at_once : Meanwhile id g g
    after :
        {h k : Gate}
        → Meanwhile id g h
        → (m : Move classify h k) → NotReserving id m
        → Meanwhile id g k

  -- The line in flight is, but for its phase, the line `l`, if it is the request's.
  abbrev Carries : Text → Line → Option Line → Type 0
  Carries id l none = Unit
  Carries id l (some k) =
      k.request_id ≡ id → record k { phase = running } ≡ record l { phase = running }

  Move-Carries :
      (id : Text) (l : Line) {g h : Gate} (m : Move classify g h)
      → NotReserving id m
      → Carries id l g.inflight
      → Carries id l h.inflight
  unfolding reserve release mark_pending begin_delivery finish_line drop_pending
      drop_pending_on_close begin_close mark_closed touch
  Move-Carries id l {g} (reserves k line now timeout cursor) n c = ground arith
  Move-Carries id l {g} (releases k) n c = ground arith
  Move-Carries id l {g} (marks k) n c = ground (arith, own_line-inv g.inflight k)
  Move-Carries id l {g} (delivers k now) n c = ground (arith, own_line-inv g.inflight k)
  Move-Carries id l {g} (finishes k o ok now e r) n c =
      ground (arith, apply_line-keeps classify k.class o ok g, text_eq_refl k.request_id)
  Move-Carries id l {g} (aborts k o now e r) n c = ground (arith, text_eq_refl k.request_id)
  Move-Carries id l {g} (drops k status) n c = ground arith
  Move-Carries id l {g} (drops_on_close k status e) n c = ground arith
  Move-Carries id l {g} (closes reason) n c = ground arith
  Move-Carries id l {g} ends n c = c
  Move-Carries id l {g} (touches now) n c = c

  Meanwhile-Carries :
      (id : Text) (l : Line) {g h : Gate}
      → Meanwhile id g h
      → Carries id l g.inflight
      → Carries id l h.inflight
  Meanwhile-Carries id l at_once c = c
  Meanwhile-Carries id l (after w m n) c = Move-Carries id l m n (Meanwhile-Carries id l w c)

  reserve-inv :
      (g g' : Gate) (id line : Text) (now timeout cursor : ℕ) (l : Line)
      → reserve classify g id line now timeout cursor ≡ (g', reserved_line l)
      → (g'.inflight ≡ some l)
        × (l.request_id ≡ id)
        × (l ≡ new_line classify g id line now timeout cursor)
  unfolding reserve
  reserve-inv g g' id line now timeout cursor l h = ground arith

  -- The line that is delivered is the line that was queued: between reserve and delivery, whatever
  -- happens to the session but a second reserve of the same request, nothing of the record changes but
  -- its phase, so what the human saw is what is sent.
  pub delivered_as_queued :
      (g g' h : Gate) (id line : Text) (now timeout cursor later : ℕ) (l l' : Line)
      → reserve classify g id line now timeout cursor ≡ (g', reserved_line l)
      → Meanwhile id g' h
      → (begin_delivery h id later).1 ≡ some l'
      → (l' ≡ record l { phase = running }) × (l ≡ new_line classify g id line now timeout cursor)
  delivered_as_queued g g' h id line now timeout cursor later l l' q w d =
      let (held, own, new) = reserve-inv g g' id line now timeout cursor l q in
      let (k, held', own', same, at, fresh) = begin_delivery-inv h id later l' d in
      let c : Carries id l g'.inflight = rw held (λ e. refl) in
      let c' = Meanwhile-Carries id l w c in (same ∙ subst (Carries id l) held' c' own', new)

  Move-closed : {g h : Gate} → Move classify g h → is_open g.state ≡ false → is_open h.state ≡ false
  unfolding reserve release mark_pending begin_delivery finish_line drop_pending
      drop_pending_on_close begin_close mark_closed touch
  Move-closed {g} (reserves k line now timeout cursor) c = ground arith
  Move-closed {g} (releases k) c = ground arith
  Move-closed {g} (marks k) c = ground (arith, own_line-inv g.inflight k)
  Move-closed {g} (delivers k now) c = ground (arith, own_line-inv g.inflight k)
  Move-closed {g} (finishes k o ok now e r) c =
      ground (arith, apply_line-keeps classify k.class o ok g, text_eq_refl k.request_id)
  Move-closed {g} (aborts k o now e r) c = ground (arith, text_eq_refl k.request_id)
  Move-closed {g} (drops k status) c = ground arith
  Move-closed {g} (drops_on_close k status e) c = ground arith
  Move-closed {g} (closes reason) c = ground arith
  Move-closed {g} ends c = refl
  Move-closed {g} (touches now) c = c

  Reach-closed :
      {g h : Gate} → Reach classify g h → is_open g.state ≡ false → is_open h.state ≡ false
  Reach-closed here c = c
  Reach-closed (next r m) c = Move-closed m (Reach-closed r c)

  -- Once a session closes, nothing is sent any more: whatever follows, no line is taken in, none goes
  -- to the queue, and none is delivered.
  pub closing_is_final :
      (g h : Gate) (reason : Text)
      → Reach classify (begin_close g reason).0 h
      → ((id line : Text) (now timeout cursor : ℕ)
          → reserve classify h id line now timeout cursor ≡ (h, is_closed h.close_reason))
        × ((id : Text) → mark_pending h id ≡ (h, false))
        × ((id : Text) (now : ℕ) → begin_delivery h id now ≡ (h, none))
  unfolding reserve mark_pending begin_delivery
  closing_is_final g h reason r =
      let c = Reach-closed r (begin_close-closed g reason) in
      (λ id line now timeout cursor. ground arith, λ id. ground arith, λ id now. ground arith)
    where
      begin_close-closed :
          (g : Gate) (reason : Text) → is_open (begin_close g reason).0.state ≡ false
      begin_close-closed g reason = unfold begin_close in ground arith

-- ===== src/Requests/Transitions.antt =====
-- The state of a request changes by one winner, and the table keeps step with the memory.
use ssh_gate_oss.Base.{
  ◌≡◌, refl, sym, ◌∙◌, ap, ◌≢◌, inl, inr, Bool, true, false, List, [], ◌∷◌, none, some, arith,
  Bool-cases, Option-cases, if◌then◌else◌,
}
use ssh_gate_oss.Text.{Text, text_eq}
use ssh_gate_oss.Text.Laws.{text_eq_iff, text_eq_refl}
use ssh_gate_oss.Requests.Request.{Request, Status, pending, status_eq_sound}
use ssh_gate_oss.Requests.Queue.{
  Row, App, moved, refused, state_conflict, find_request, set_request, find_row, set_row, commit,
  transition_request, status_in,
}

find_request-set :
    (id j : Text) (next : Request) (rs : List Request)
    → next.id ≡ id
    → find_request j (set_request id next rs) ≡ (
        if text_eq id j
        then (elim (find_request id rs) [ none ↦ none | some r ↦ some next ])
        else find_request j rs)
unfolding find_request set_request
find_request-set id j next [] e = ground arith
find_request-set id j next (r ∷ rs) e = ground (
  arith,
  text_eq_iff r.id id,
  text_eq_iff r.id j,
  text_eq_iff id j,
  text_eq_iff next.id j,
  find_request-set id j next rs e,
)

-- The row of each ID, once one row is written.
find_row-set :
    (id j : Text) (w : Row) (ws : List Row)
    → w.request.id ≡ id
    → find_row j (set_row id w ws) ≡ (
        if text_eq id j
        then (elim (find_row id ws) [ none ↦ none | some r ↦ some w ])
        else find_row j ws)
unfolding find_row set_row
find_row-set id j w [] e = ground arith
find_row-set id j w (r ∷ ws) e = ground (
  arith,
  text_eq_iff r.request.id id,
  text_eq_iff r.request.id j,
  text_eq_iff id j,
  text_eq_iff w.request.id j,
  find_row-set id j w ws e,
)

pub find_request-id :
    (id : Text) (rs : List Request) (r : Request) → find_request id rs ≡ some r → r.id ≡ id
unfolding find_request
find_request-id id [] r h = cc
find_request-id id (x ∷ rs) r h = ground (arith, text_eq_iff x.id id, find_request-id id rs r)

pub find_request-set_self :
    (id : Text) (next cur : Request) (rs : List Request)
    → next.id ≡ id
    → find_request id rs ≡ some cur
    → find_request id (set_request id next rs) ≡ some next
find_request-set_self id next cur rs e h =
    find_request-set id id next rs e ∙ rw (text_eq_refl id, h) refl

commit-moved :
    (f : Bool) (a : App) (cur next q : Request)
    → (commit f a cur next).1 ≡ moved q
    → (q ≡ next) × ((commit f a cur next).0.requests ≡ set_request next.id next a.requests)
unfolding commit
commit-moved f a cur next q h = ground arith

-- What a transition that succeeds has done.
pub record Moves (a a' : App) (id : Text) (cur next : Request) : Type 0 where
  pub found : find_request id a.requests ≡ some cur
  pub published : a'.requests ≡ set_request id next a.requests

transition_request-moved :
    (f : Bool) (a : App) (id : Text) (from : List Status) (m : Request → Request) (next : Request)
    → ((r : Request) → (m r).id ≡ r.id)
    → (transition_request f a id from m).1 ≡ moved next
    → (cur : Request) × (next ≡ m cur)
      × (status_in cur.status from ≡ true)
      × Moves a (transition_request f a id from m).0 id cur next
unfolding transition_request
transition_request-moved f a id from m next keeps h =
    elim (Option-cases (find_request id a.requests)) [
      | inl e ↦ absurd (ground arith)
      | inr (cur, e) ↦ elim (Bool-cases (status_in cur.status from)) [
        | inr n ↦ absurd (ground arith)
        | inl y ↦
            let (is_next, published) = commit-moved f a cur (m cur) next (ground arith) in
            (
              cur,
              is_next,
              y,
              record {
                found = e;
                published =
                    rw (e, transition_request, y)
                      (published
                        ∙ ap (λ k. set_request k (m cur) a.requests)
                            (keeps cur ∙ find_request-id id a.requests cur e)
                        ∙ ap (λ q. set_request id q a.requests) (sym is_next));
              },
            )
      ]
    ]

transition_request-refused :
    (f : Bool) (a : App) (id : Text) (from : List Status) (m : Request → Request) (r : Request)
    → find_request id a.requests ≡ some r
    → status_in r.status from ≡ false
    → transition_request f a id from m ≡ (a, refused r state_conflict)
unfolding transition_request
transition_request-refused f a id from m r e n = rw (e, transition_request, n) refl

not_pending_in : (s : Status) → s ≢ pending → status_in s (pending ∷ []) ≡ false
unfolding status_in
not_pending_in s h = ground (arith, status_eq_sound s pending)

-- Of two decisions on one waiting request only the first wins: once a transition that keeps the ID
-- has taken it out of the pending state, another from that state is refused and changes nothing.
pub decided_once :
    (f f' : Bool) (a : App) (id : Text) (m m' : Request → Request) (next : Request)
    → ((r : Request) → (m r).id ≡ r.id)
    → ((r : Request) → (m r).status ≢ pending)
    → (transition_request f a id (pending ∷ []) m).1 ≡ moved next
    → let a' = (transition_request f a id (pending ∷ []) m).0 in
      transition_request f' a' id (pending ∷ []) m' ≡ (a', refused next state_conflict)
decided_once f f' a id m m' next keeps leaves h =
    let (cur, is_next, from, moves) =
      transition_request-moved f a id (pending ∷ []) m next keeps h in
    let next_id : next.id ≡ id =
      ap (λ (q : Request). q.id) is_next
      ∙ keeps cur
      ∙ find_request-id id a.requests cur moves.found in
    transition_request-refused f' _ id (pending ∷ []) m' next
      (ap (find_request id) moves.published
        ∙ find_request-set_self id next cur a.requests next_id moves.found)
      (not_pending_in next.status
        (λ e. leaves cur (ap (λ (q : Request). q.status) (sym is_next) ∙ e)))

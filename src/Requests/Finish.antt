-- ===== src/Requests/Finish.antt =====
-- What the end of a run leaves in the queue, whether SQLite writes it or not.
use ssh_gate_oss.Base.{
  ℕ, ◌≡◌, ◌≢◌, refl, sym, ◌∙◌, ap, ◌⊎◌, inl, inr, Bool, true, false, List, [], ◌∷◌, Option, none,
  some, arith, Bool-cases, Option-cases,
}
use ssh_gate_oss.Text.{Text}
use ssh_gate_oss.Text.Laws.{text_eq_iff}
use ssh_gate_oss.Requests.Request.{Request, Status, status_eq, status_eq_refl}
use ssh_gate_oss.Requests.Queue.{
  Row, App, Faults, state_conflict, storage_failed, Stored, stored, not_stored, find_request,
  set_request, find_row, load_command_request, adopt_row, finalize_stored, finalize_commit,
  finalize_request, publish,
}
use ssh_gate_oss.Requests.Approval.Execution.{ExecOutcome, finish_run, finish_request}
use ssh_gate_oss.Requests.Transitions.{find_request-id, find_request-set_self}

find_row-id : (id : Text) (ws : List Row) (w : Row) → find_row id ws ≡ some w → w.request.id ≡ id
unfolding find_row
find_row-id id [] w h = cc
find_row-id id (x ∷ ws) w h = ground (arith, text_eq_iff x.request.id id, find_row-id id ws w)

load_command_request-id :
    (id : Text) (ws : List Row) (r : Request) → load_command_request ws id ≡ some r → r.id ≡ id
unfolding load_command_request
load_command_request-id id ws r h = elim (Option-cases (find_row id ws)) [
  | inl e ↦ absurd (ground arith)
  | inr (w, e) ↦ ground (arith, find_row-id id ws w e)
]

-- The memory holds `next`, or what another has written into the row meanwhile.
abbrev pub Settled : Option (List Row) → App → Text → Status → Request → Type 0
Settled store a' id from next =
    (find_request id a'.requests ≡ some next)
    ⊎ ((row : Request) × (rows : List Row) × (store ≡ some rows)
        × (load_command_request rows id ≡ some row)
        × (row.status ≢ from)
        × (find_request id a'.requests ≡ some row))

module _ (a : App) (id : Text) (cur : Request) (held : find_request id a.requests ≡ some cur) where
  published :
      (store : Option (List Row)) (next : Request)
      → next.id ≡ id
      → find_request id (publish a store next).requests ≡ some next
  published store next e =
      ap (λ k. find_request id (set_request k next a.requests)) e
      ∙ find_request-set_self id next cur a.requests e held

  adopt_row-Settled :
      (rows : List Row) (next : Request) (from : Status) (row : Request)
      → next.id ≡ id
      → load_command_request rows id ≡ some row
      → Settled (some rows) (adopt_row a rows next from row).0 id from next
  unfolding adopt_row
  adopt_row-Settled rows next from row e l = elim (Bool-cases (status_eq row.status from)) [
    | inl y ↦ rw (y, adopt_row) (inl (published (some rows) next e))
    | inr n ↦
        rw (n, adopt_row)
          (inr (
            row,
            rows,
            refl,
            l,
            (λ q. ground (arith, status_eq_refl from)),
            published (some rows) row (load_command_request-id id rows row l),
          ))
  ]

  finalize_stored-Settled :
      (read_fails : Bool) (rows : List Row) (next : Request) (from : Status) (t : Stored)
      → next.id ≡ id
      → Settled (some rows) (finalize_stored read_fails a rows next from t).0 id from next
  unfolding finalize_stored
  finalize_stored-Settled read_fails rows next from (stored rows') e =
      inl (published (some rows') next e)
  finalize_stored-Settled read_fails rows next from (not_stored storage_failed) e =
      inl (published (some rows) next e)
  finalize_stored-Settled true rows next from (not_stored state_conflict) e =
      inl (published (some rows) next e)
  finalize_stored-Settled false rows next from (not_stored state_conflict) e =
      elim (Option-cases (load_command_request rows next.id)) [
        | inl l ↦ rw (l, finalize_stored) (inl (published (some rows) next e))
        | inr (row, l) ↦
            rw (l, finalize_stored)
              (adopt_row-Settled rows next from row e (ap (load_command_request rows) (sym e) ∙ l))
      ]

  finalize_commit-Settled :
      (faults : Faults) (next : Request) (from : Status)
      → next.id ≡ id
      → Settled a.store (finalize_commit faults a next from).0 id from next
  unfolding finalize_commit
  finalize_commit-Settled faults next from e = elim (Option-cases a.store) [
    | inl s ↦ rw (s, finalize_commit) (inl (published none next e))
    | inr (rows, s) ↦
        rw (s, finalize_commit) (finalize_stored-Settled faults.read_fails rows next from _ e)
  ]

-- When a run of a request that the queue holds in the state of the run ends, the queue holds its
-- outcome, whichever reads and writes of SQLite fail, unless another has changed the state of the
-- row: then it holds that row.
pub finish_request-Settled :
    (faults : Faults) (now : ℕ) (a : App) (run cur : Request) (state : Status) (o : ExecOutcome)
    → find_request run.id a.requests ≡ some cur
    → cur.status ≡ run.status
    → Settled a.store
        (finish_request faults now a run state o).0
        run.id
        run.status
        (finish_run now state o cur)
unfolding finish_request finalize_request finish_run
finish_request-Settled faults now a run cur state o held same =
    rw (held, finish_request, finalize_request, same, status_eq_refl run.status)
      (finalize_commit-Settled a run.id cur held faults (finish_run now state o cur) run.status
        (find_request-id run.id a.requests cur held))

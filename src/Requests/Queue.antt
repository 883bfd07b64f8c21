-- ===== src/Requests/Queue.antt =====
-- The queue of requests in memory and its table in SQLite: recordCommandRequest, findRequest,
-- transitionRequest and DeleteCommandRequest of approval.go, finalizeRequest of app.go, and the
-- statements of storage.go that they run. Each runs under the mutex. SQLite decides whether a
-- statement fails: that is the argument `faults`, and a statement that fails changes nothing.
-- The broadcast that wakes the waiting polls changes no state and is left out.
use ssh_gate_oss.Base.{
  Bool, true, false, not, ◌&&◌, ◌||◌, List, [], ◌∷◌, Option, none, some, if◌then◌else◌,
}
use ssh_gate_oss.Text.{Text, text_eq, trim_space}
use ssh_gate_oss.Requests.Request.{Request, Status, running, auto_running, status_eq}

-- A row of command_requests; `deleted` is deleted_at <> 0.
pub record Row : Type 0 where
  pub request : Request
  pub deleted : Bool

pub record App : Type 0 where
  pub requests : List Request
  pub store : Option (List Row)

pub data StoreError : Type 0 where
  state_conflict storage_failed : StoreError

-- Whether SQLite fails the write, and the read that may follow it.
pub record Faults : Type 0 where
  pub write_fails : Bool
  pub read_fails : Bool

-- The result of a statement on the table.
pub data Stored : Type 0 where
  stored : List Row → Stored
  not_stored : StoreError → Stored

-- The result of a change of state.
pub data Outcome : Type 0 where
  moved : Request → Outcome
  missing : Outcome
  refused : Request → StoreError → Outcome
  not_saved : Request → Outcome  -- errFinalStateNotSaved

-- findRequest.
unfoldable pub find_request : Text → List Request → Option Request
find_request id [] = none
find_request id (r ∷ rs) = if text_eq r.id id then some r else find_request id rs

-- a.requests[index] = next, at the first request with the ID.
unfoldable pub set_request : Text → Request → List Request → List Request
set_request id next [] = []
set_request id next (r ∷ rs) = if text_eq r.id id then next ∷ rs else r ∷ set_request id next rs

-- The first request with the ID is taken out.
unfoldable pub remove_request : Text → List Request → List Request
remove_request id [] = []
remove_request id (r ∷ rs) = if text_eq r.id id then rs else r ∷ remove_request id rs

-- The row of an ID, which is the primary key.
unfoldable pub find_row : Text → List Row → Option Row
find_row id [] = none
find_row id (w ∷ ws) = if text_eq w.request.id id then some w else find_row id ws

unfoldable pub set_row : Text → Row → List Row → List Row
set_row id row [] = []
set_row id row (w ∷ ws) = if text_eq w.request.id id then row ∷ ws else w ∷ set_row id row ws

-- The columns that updateCommandRequestFrom writes.
abbrev pub write_columns : Request → Request → Request
write_columns row next = record row {
  connection_id = next.connection_id;
  host = next.host;
  executed_command = next.executed_command;
  approved_risk = next.approved_risk;
  status = next.status;
  stdout = next.stdout;
  stderr = next.stderr;
  decided_by = next.decided_by;
  decided_at = next.decided_at;
  finished_at = next.finished_at;
  exit_code = next.exit_code;
  error_kind = next.error_kind;
  expires_at = next.expires_at;
}

abbrev update_row : List Row → Request → Status → Option Row → Stored
update_row rows next from none = not_stored state_conflict
update_row rows next from (some w) =
    if status_eq w.request.status from
    then stored (set_row next.id (record w { request = write_columns w.request next }) rows)
    else not_stored state_conflict

-- updateCommandRequestFrom.
unfoldable pub update_command_request_from : Bool → List Row → Request → Status → Stored
update_command_request_from fault rows next from =
    if fault then not_stored storage_failed else update_row rows next from (find_row next.id rows)

abbrev pub is_running : Status → Bool
is_running s = status_eq s running || status_eq s auto_running

abbrev mark_deleted : List Row → Text → Option Row → Stored
mark_deleted rows id none = not_stored state_conflict
mark_deleted rows id (some w) =
    if not w.deleted && not (is_running w.request.status)
    then stored (set_row id (record w { deleted = true }) rows)
    else not_stored state_conflict

-- deleteCommandRequestUnlessRunning.
unfoldable pub delete_unless_running : Bool → List Row → Text → Stored
delete_unless_running fault rows id =
    if fault then not_stored storage_failed else mark_deleted rows id (find_row id rows)

abbrev visible : Option Row → Option Request
visible none = none
visible (some w) = if w.deleted then none else some w.request

-- loadCommandRequest.
unfoldable pub load_command_request : List Row → Text → Option Request
load_command_request rows id = visible (find_row id rows)

abbrev has_row : Option Row → Bool
has_row none = false
has_row (some w) = true

-- insertCommandRequest fails on an ID that the table holds, which is the primary key.
unfoldable pub insert_fails : Bool → List Row → Request → Bool
insert_fails fault rows req = fault || has_row (find_row req.id rows)

-- recordCommandRequest: the row first, then the memory.
unfoldable pub record_command_request : Bool → App → Request → App × Bool
record_command_request fault a req = elim a.store [
  | none ↦ (record a { requests = req ∷ a.requests }, true)
  | some rows ↦ if insert_fails fault rows req then (a, false) else (
    record {
      requests = req ∷ a.requests;
      store = some (record { request = req; deleted = false } ∷ rows);
    },
    true,
  )
]

unfoldable pub status_in : Status → List Status → Bool
status_in s [] = false
status_in s (t ∷ ts) = status_eq s t || status_in s ts

abbrev pub publish : App → Option (List Row) → Request → App
publish a store next = record { requests = set_request next.id next a.requests; store = store }

-- The end of transitionRequest: the table decides, then the memory follows.
unfoldable pub commit : Bool → App → Request → Request → App × Outcome
commit fault a current next = elim a.store [
  | none ↦ (publish a none next, moved next)
  | some rows ↦ elim (update_command_request_from fault rows next current.status) [
    | stored rows' ↦ (publish a (some rows') next, moved next)
    | not_stored e ↦ (a, refused current e)
  ]
]

-- transitionRequest. The change `mutate` leaves the ID alone, as every caller's does.
unfoldable pub transition_request :
    Bool → App → Text → List Status → (Request → Request) → App × Outcome
transition_request fault a id from mutate = elim (find_request id a.requests) [
  | none ↦ (a, missing)
  | some current ↦
      if status_in current.status from
      then commit fault a current (mutate current)
      else (a, refused current state_conflict)
]

-- finalizeRequest's answer to a conflict: the row may be ahead of the memory.
unfoldable pub adopt_row : App → List Row → Request → Status → Request → App × Outcome
adopt_row a rows next from row =
    if status_eq row.status from
    then (publish a (some rows) next, not_saved next)
    else (publish a (some rows) row, refused row state_conflict)

unfoldable pub finalize_stored : Bool → App → List Row → Request → Status → Stored → App × Outcome
finalize_stored read_fails a rows next from (stored rows') =
    (publish a (some rows') next, moved next)
finalize_stored read_fails a rows next from (not_stored storage_failed) =
    (publish a (some rows) next, not_saved next)
finalize_stored read_fails a rows next from (not_stored state_conflict) =
    elim (if read_fails then none else load_command_request rows next.id) [
      | none ↦ (publish a (some rows) next, not_saved next)
      | some row ↦ adopt_row a rows next from row
    ]

-- The end of finalizeRequest: the memory follows whether the row is written or not.
unfoldable pub finalize_commit : Faults → App → Request → Status → App × Outcome
finalize_commit faults a next from = elim a.store [
  | none ↦ (publish a none next, moved next)
  | some rows ↦
      finalize_stored faults.read_fails a rows next from
        (update_command_request_from faults.write_fails rows next from)
]

-- finalizeRequest; the message storageError is left out.
unfoldable pub finalize_request : Faults → App → Text → Status → (Request → Request) → App × Outcome
finalize_request faults a id from mutate = elim (find_request id a.requests) [
  | none ↦ (a, missing)
  | some current ↦
      if status_eq current.status from
      then finalize_commit faults a (mutate current) from
      else (a, refused current state_conflict)
]

-- The codes of ActionResult for a deletion.
pub data Deletion : Type 0 where
  deleted not_found in_use storage : Deletion

abbrev drop_request : App → Text → Option (List Row) → App × Deletion
drop_request a id store =
    (record { requests = remove_request id a.requests; store = store }, deleted)

unfoldable pub delete_stored : Bool → App → Text → List Row → Stored → App × Deletion
delete_stored read_fails a id rows (stored rows') = drop_request a id (some rows')
delete_stored read_fails a id rows (not_stored storage_failed) = (a, storage)
delete_stored read_fails a id rows (not_stored state_conflict) =
    elim (load_command_request rows id) [
      | some row ↦ (a, in_use)
      | none ↦ if read_fails then (a, in_use) else drop_request a id (some rows)
    ]

unfoldable pub delete_found : Faults → App → Text → Request → App × Deletion
delete_found faults a id r = if is_running r.status then (a, in_use) else elim a.store [
  | none ↦ drop_request a id none
  | some rows ↦
      delete_stored faults.read_fails a id rows (delete_unless_running faults.write_fails rows id)
]

-- DeleteCommandRequest, behind the refusal for lines of an open AI session.
unfoldable pub delete_command_request : Faults → App → Text → App × Deletion
delete_command_request faults a id = elim (find_request (trim_space id) a.requests) [
  | none ↦ (a, not_found)
  | some r ↦ delete_found faults a (trim_space id) r
]

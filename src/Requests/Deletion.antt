-- ===== src/Requests/Deletion.antt =====
-- What a deletion takes out of the queue.
use ssh_gate_oss.Base.{
  ◌≡◌, ◌≢◌, refl, ◌⊎◌, inl, inr, Bool, true, false, List, [], ◌∷◌, ◌++◌, ap, subst, Option, none,
  some, arith, Bool-cases, Option-cases,
}
use ssh_gate_oss.Text.{Text, text_eq, trim_space}
use ssh_gate_oss.Text.Laws.{text_eq_iff}
use ssh_gate_oss.Requests.Request.{Request}
use ssh_gate_oss.Requests.Queue.{
  Row, App, Faults, state_conflict, storage_failed, Stored, stored, not_stored, deleted,
  find_request, remove_request, find_row, set_row, load_command_request, is_running,
  delete_unless_running, delete_stored, delete_found, delete_command_request,
}

-- `rs'` is `rs` without the request `r`, the first one of the ID.
abbrev pub TakesOut : Text → Request → List Request → List Request → Type 0
TakesOut id r rs rs' =
    (pre post : List Request) × (rs ≡ pre ++ r ∷ post)
    × (find_request id pre ≡ none)
    × (rs' ≡ pre ++ post)

find_request-remove :
    (id j : Text) (rs : List Request)
    → j ≢ id
    → find_request j (remove_request id rs) ≡ find_request j rs
unfolding find_request remove_request
find_request-remove id j [] n = refl
find_request-remove id j (r ∷ rs) n =
    ground (arith, text_eq_iff r.id id, text_eq_iff r.id j, find_request-remove id j rs n)

-- The removal takes out the request that the ID finds, and nothing else.
remove_request-TakesOut :
    (id : Text) (rs : List Request) (r : Request)
    → find_request id rs ≡ some r
    → TakesOut id r rs (remove_request id rs)
unfolding find_request remove_request
remove_request-TakesOut id [] r h = absurd (ground arith)
remove_request-TakesOut id (q ∷ rs) r h = elim (Bool-cases (text_eq q.id id)) [
  | inl e ↦ ([], rs, ap (λ (x : Request). x ∷ rs) (ground arith), refl, ground arith)
  | inr n ↦
      let (pre, post, whole, before, left) = remove_request-TakesOut id rs r (ground arith) in
      (
        q ∷ pre,
        post,
        ap (λ (xs : List Request). q ∷ xs) whole,
        rw (n, find_request) before,
        rw (n, remove_request) (ap (λ (xs : List Request). q ∷ xs) left),
      )
]

-- The row of the request is absent, deleted before, or not running.
abbrev pub MayGo : Option (List Row) → Text → Type 0
MayGo none id = Unit
MayGo (some rows) id =
    (w : Row)
    → find_row id rows ≡ some w
    → (w.deleted ≡ true) ⊎ (is_running w.request.status ≡ false)

delete_unless_running-MayGo :
    (f : Bool) (rows rows' : List Row) (id : Text)
    → delete_unless_running f rows id ≡ stored rows'
    → MayGo (some rows) id
unfolding delete_unless_running
delete_unless_running-MayGo f rows rows' id h w e = ground arith

load_command_request-MayGo :
    (rows : List Row) (id : Text) → load_command_request rows id ≡ none → MayGo (some rows) id
unfolding load_command_request
load_command_request-MayGo rows id h w e = ground arith

-- No row of the request is read any more.
abbrev pub Unread : Option (List Row) → Text → Type 0
Unread none id = Unit
Unread (some rows) id = load_command_request rows id ≡ none

marked_row-Unread :
    (id : Text) (rows : List Row) (w : Row)
    → find_row id rows ≡ some w
    → load_command_request (set_row id (record w { deleted = true }) rows) id ≡ none
unfolding load_command_request find_row set_row
marked_row-Unread id [] w h = absurd (ground arith)
marked_row-Unread id (v ∷ rows) w h = elim (Bool-cases (text_eq v.request.id id)) [
  | inl e ↦
      let same : v ≡ w = ground arith in
      let named : text_eq w.request.id id ≡ true =
        subst (λ u. text_eq u.request.id id ≡ true) same e in
      rw (e, set_row, named, find_row) refl
  | inr n ↦ rw (n, set_row, n, find_row) (marked_row-Unread id rows w (ground arith))
]

delete_unless_running-Unread :
    (f : Bool) (rows rows' : List Row) (id : Text)
    → delete_unless_running f rows id ≡ stored rows'
    → load_command_request rows' id ≡ none
unfolding delete_unless_running
delete_unless_running-Unread f rows rows' id h = elim (Option-cases (find_row id rows)) [
  | inl e ↦ absurd (ground arith)
  | inr (w, e) ↦
      subst (λ t. load_command_request t id ≡ none)
        {x = set_row id (record w { deleted = true }) rows} (ground arith)
        (marked_row-Unread id rows w e)
]

-- What a deletion that succeeds has found, and what it keeps.
pub record Deletes (a a' : App) (id : Text) : Type 0 where
  pub may_go : MayGo a.store id
  pub rest : a'.requests ≡ remove_request id a.requests
  pub unread : Unread a'.store id

delete_stored-deleted :
    (read_fails : Bool) (a : App) (id : Text) (rows : List Row) (t : Stored)
    → (delete_stored read_fails a id rows t).1 ≡ deleted
    → (((rows' : List Row) × (t ≡ stored rows')
          × ((delete_stored read_fails a id rows t).0.store ≡ some rows'))
        ⊎ ((load_command_request rows id ≡ none)
            × ((delete_stored read_fails a id rows t).0.store ≡ some rows)))
      × ((delete_stored read_fails a id rows t).0.requests ≡ remove_request id a.requests)
unfolding delete_stored
delete_stored-deleted read_fails a id rows (stored rows') h = (inl (rows', refl, refl), refl)
delete_stored-deleted read_fails a id rows (not_stored storage_failed) h = absurd (ground arith)
delete_stored-deleted read_fails a id rows (not_stored state_conflict) h =
    elim (Option-cases (load_command_request rows id)) [
      | inr (row, l) ↦ absurd (ground arith)
      | inl l ↦ (inr (l, ground arith), ground arith)
    ]

delete_found-Deletes :
    (faults : Faults) (a : App) (id : Text) (r : Request)
    → (delete_found faults a id r).1 ≡ deleted
    → (is_running r.status ≡ false) × Deletes a (delete_found faults a id r).0 id
unfolding delete_found
delete_found-Deletes faults a id r h = elim (Bool-cases (is_running r.status)) [
  | inl y ↦ absurd (ground arith)
  | inr n ↦ elim (Option-cases a.store) [
    | inl s ↦ (n, record { may_go = rw s tt; rest = ground arith; unread = rw (n, s) tt })
    | inr (rows, s) ↦
        let (gone, rest) =
          delete_stored-deleted faults.read_fails a id rows
            (delete_unless_running faults.write_fails rows id) (ground arith) in
        (
          n,
          record {
            may_go = rw s (elim gone [
              | inl (rows', e, k) ↦ delete_unless_running-MayGo faults.write_fails rows rows' id e
              | inr (l, k) ↦ load_command_request-MayGo rows id l
            ]);
            rest = ground arith;
            unread = elim gone [
              | inl (rows', e, k) ↦
                  rw (n, s, k) (delete_unless_running-Unread faults.write_fails rows rows' id e)
              | inr (l, k) ↦ rw (n, s, k) l
            ];
          },
        )
  ]
]

-- A deletion that succeeds has found a request that runs neither in the memory nor in a row that is not
-- deleted, and leaves no row of it that is read; the requests after it are those before it without the first one of that ID, which is the one
-- found, and every request of another ID is found as before.
pub delete_command_request-Deletes :
    (faults : Faults) (a : App) (id : Text)
    → (delete_command_request faults a id).1 ≡ deleted
    → (r : Request) × (find_request (trim_space id) a.requests ≡ some r)
      × (is_running r.status ≡ false)
      × MayGo a.store (trim_space id)
      × Unread (delete_command_request faults a id).0.store (trim_space id)
      × TakesOut (trim_space id) r a.requests (delete_command_request faults a id).0.requests
      × ((j : Text)
          → j ≢ trim_space id
          → find_request j (delete_command_request faults a id).0.requests
            ≡ find_request j a.requests)
unfolding delete_command_request
delete_command_request-Deletes faults a id h =
    elim (Option-cases (find_request (trim_space id) a.requests)) [
      | inl e ↦ absurd (ground arith)
      | inr (r, e) ↦
          let (idle, d) = delete_found-Deletes faults a (trim_space id) r (ground arith) in
          (
            r,
            e,
            idle,
            d.may_go,
            rw (e, delete_command_request) d.unread,
            rw (e, delete_command_request, d.rest)
                (remove_request-TakesOut (trim_space id) a.requests r e),
            λ j n.
                rw (e, delete_command_request, d.rest)
                  (find_request-remove (trim_space id) j a.requests n),
          )
    ]

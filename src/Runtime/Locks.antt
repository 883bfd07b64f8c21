-- ===== src/Runtime/Locks.antt =====
-- lockKey of mcp_status.go: the locks by which requests with the same key wait for each other. A lock is a
-- shared object, so it has an address in a store. Each part under the mutex of the runtime is one step,
-- and so are locking and unlocking the mutex of a lock, which waits while it is locked.
use ssh_gate_oss.Base.{
  ℕ, ◌+◌, ◌-◌, ◌≡◌, Bool, true, false, List, [], ◌∷◌, ◌++◌, none, some, if◌then◌else◌, ◌==◌,
}
use ssh_gate_oss.Text.{Text, lookup}
use ssh_gate_oss.Table.{put, delete}

-- idempotencyLock; its mutex is whether it is locked.
pub record Lock : Type 0 where
  pub locked : Bool
  pub refs : ℕ

pub data Phase : Type 0 where
  waiting holding unlocked : Phase

-- A call of lockKey that is not over: its key, the address of its lock, and how far it is.
pub record Call : Type 0 where
  pub key : Text
  pub address : ℕ
  pub phase : Phase

-- The table of the runtime, the store with its next free address, and the calls.
pub record World : Type 0 where
  pub keys : List (Text × ℕ)
  pub store : ℕ → Lock
  pub free : ℕ
  pub calls : List Call

abbrev pub new_world : World
new_world = record {
  keys = [];
  store = λ a. record { locked = false; refs = 0 };
  free = 0;
  calls = [];
}

abbrev pub set_lock : ℕ → Lock → (ℕ → Lock) → ℕ → Lock
set_lock a l store b = if b == a then l else store b

abbrev pub call_of : Text → ℕ → Phase → Call
call_of k a phase = record { key = k; address = a; phase = phase }

-- The first part of lockKey: the lock of the key, a new one where there is none, with a reference more.
unfoldable pub take_lock : World → Text → World
take_lock w k = elim (lookup k w.keys) [
  | some a ↦
      let l = w.store a in
      record w {
        store = set_lock a (record l { refs = l.refs + 1 }) w.store;
        calls = call_of k a waiting ∷ w.calls;
      }
  | none ↦ record w {
    keys = put k w.free w.keys;
    store = set_lock w.free (record { locked = false; refs = 1 }) w.store;
    free = w.free + 1;
    calls = call_of k w.free waiting ∷ w.calls;
  }
]

-- The mutex of the lock is locked by the call at the place, or unlocked.
unfoldable pub set_locked : World → Bool → ℕ → List Call → World
set_locked w b a calls = record w {
  store = set_lock a (record (w.store a) { locked = b }) w.store;
  calls = calls;
}

-- The last part: a reference less, and the key is free where it was the last.
unfoldable pub drop_lock : World → Text → ℕ → List Call → World
drop_lock w k a calls =
    let l = w.store a in
    record w {
      keys = if l.refs - 1 == 0 then delete k w.keys else w.keys;
      store = set_lock a (record l { refs = l.refs - 1 }) w.store;
      calls = calls;
    }

-- What may happen.
pub data Step : World → World → Type 0 where
  takes : {w : World} (k : Text) → Step w (take_lock w k)
  locks :
      {w : World} (pre post : List Call) (k : Text) (a : ℕ)
      → w.calls ≡ pre ++ call_of k a waiting ∷ post
      → (w.store a).locked ≡ false
      → Step w (set_locked w true a (pre ++ call_of k a holding ∷ post))
  unlocks :
      {w : World} (pre post : List Call) (k : Text) (a : ℕ)
      → w.calls ≡ pre ++ call_of k a holding ∷ post
      → Step w (set_locked w false a (pre ++ call_of k a unlocked ∷ post))
  drops :
      {w : World} (pre post : List Call) (k : Text) (a : ℕ)
      → w.calls ≡ pre ++ call_of k a unlocked ∷ post
      → Step w (drop_lock w k a (pre ++ post))

pub data Reach (w : World) : World → Type 0 where
  here : Reach w w
  next : {v u : World} → Reach w v → Step v u → Reach w u

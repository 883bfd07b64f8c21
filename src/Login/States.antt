-- ===== src/Login/States.antt =====
-- The state that the limiter keeps for one remote, and what each step makes of it.
use ssh_gate_oss.Base.{
  ℕ, zero, suc, ◌≤◌, ◌≡◌, refl, inl, inr, ◌||◌, List, [], ◌∷◌, Option, none, some, arith, ltb, leb,
  if◌then◌else◌, length, Bool-cases, take, subst, ◌∙◌,
}
use ssh_gate_oss.Text.{Text, lookup, text_eq}
use ssh_gate_oss.Text.Laws.{text_eq_iff, text_eq_refl}
use ssh_gate_oss.Table.{put, delete, lookup-put, lookup-delete, Distinct, delete-Distinct}
use ssh_gate_oss.Login.Limiter.{
  RemoteState, fresh, Limiter, evictable, candidates, insert_by_time, sort_by_time, delete_all,
  evict_locked, make_room, until_of,
}

-- A remote that the table does not hold is in the state of a new one.
abbrev pub or_fresh : Option RemoteState → RemoteState
or_fresh none = fresh
or_fresh (some st) = st

abbrev pub state_in : List (Text × RemoteState) → Text → RemoteState
state_in m remote = or_fresh (lookup remote m)

pub until_of-or_fresh : (o : Option RemoteState) → until_of o ≡ (or_fresh o).locked_until
until_of-or_fresh none = refl
until_of-or_fresh (some st) = refl

pub state_in-put :
    (k j : Text) (st : RemoteState) (m : List (Text × RemoteState))
    → state_in (put k st m) j ≡ (if text_eq k j then st else state_in m j)
state_in-put k j st m =
    rw (lookup-put k j st m)
      (elim (Bool-cases (text_eq k j)) [ inl e ↦ rw e refl | inr e ↦ rw e refl ])

pub state_in-delete :
    (k j : Text) (m : List (Text × RemoteState))
    → state_in (delete k m) j ≡ (if text_eq k j then fresh else state_in m j)
state_in-delete k j m =
    rw (lookup-delete k j m)
      (elim (Bool-cases (text_eq k j)) [ inl e ↦ rw e refl | inr e ↦ rw e refl ])

-- A state that may be forgotten: no lock, and no attempt that waits for its result.
abbrev pub IsIdle : RemoteState → ℕ → Type 0
IsIdle st now = (st.locked_until ≤ now) × (st.inflight ≡ 0)

-- Every key of the list names an idle state.
abbrev AllIdle : ℕ → List (Text × RemoteState) → List (Text × ℕ) → Type 0
AllIdle now m [] = Unit
AllIdle now m ((k, t) ∷ l) = IsIdle (state_in m k) now × AllIdle now m l

-- Every key of the list names an idle entry that the table holds.
abbrev AllHeld : ℕ → List (Text × RemoteState) → List (Text × ℕ) → Type 0
AllHeld now m [] = Unit
AllHeld now m ((k, t) ∷ l) =
    ((st : RemoteState) × (lookup k m ≡ some st) × IsIdle st now) × AllHeld now m l

AllHeld-AllIdle :
    (now : ℕ) (m : List (Text × RemoteState)) (l : List (Text × ℕ))
    → AllHeld now m l
    → AllIdle now m l
AllHeld-AllIdle now m [] h = tt
AllHeld-AllIdle now m ((k, t) ∷ l) ((st, e, i), h) = (rw e i, AllHeld-AllIdle now m l h)

AllHeld-cons :
    (now : ℕ) (k : Text) (st : RemoteState) (m : List (Text × RemoteState)) (l : List (Text × ℕ))
    → lookup k m ≡ none
    → AllHeld now m l
    → AllHeld now ((k, st) ∷ m) l
unfolding lookup
AllHeld-cons now k st m [] absent h = tt
AllHeld-cons now k st m ((i, t) ∷ l) absent ((st', e, idle), h) =
    ((st', ground (arith, text_eq_iff k i), idle), AllHeld-cons now k st m l absent h)

candidates-held :
    (now : ℕ) (m : List (Text × RemoteState)) → Distinct m → AllHeld now m (candidates now m)
unfolding candidates evictable lookup
candidates-held now [] d = tt
candidates-held now ((k, st) ∷ m) d =
    let rest = AllHeld-cons now k st m (candidates now m) d.0 (candidates-held now m d.1) in
    elim (Bool-cases (ltb now st.locked_until || ltb 0 st.inflight)) [
      | inl e ↦ rw e rest
      | inr e ↦ rw e ((st, rw (text_eq_refl k) refl, (ground arith, ground arith)), rest)
    ]

insert-AllIdle :
    (now : ℕ) (m : List (Text × RemoteState)) (k : Text) (t : ℕ) (l : List (Text × ℕ))
    → IsIdle (state_in m k) now
    → AllIdle now m l
    → AllIdle now m (insert_by_time (k, t) l)
unfolding insert_by_time
insert-AllIdle now m k t [] i h = (i, tt)
insert-AllIdle now m k t ((j, u) ∷ l) i h = elim (Bool-cases (leb t u)) [
  | inl e ↦ rw e (i, h)
  | inr e ↦ rw e (h.0, insert-AllIdle now m k t l i h.1)
]

sort-AllIdle :
    (now : ℕ) (m : List (Text × RemoteState)) (l : List (Text × ℕ))
    → AllIdle now m l
    → AllIdle now m (sort_by_time l)
unfolding sort_by_time
sort-AllIdle now m [] h = tt
sort-AllIdle now m ((k, t) ∷ l) (i, h) =
    insert-AllIdle now m k t (sort_by_time l) i (sort-AllIdle now m l h)

take-AllIdle :
    (now n : ℕ) (m : List (Text × RemoteState)) (l : List (Text × ℕ))
    → AllIdle now m l
    → AllIdle now m (take n l)
take-AllIdle now zero m l h = tt
take-AllIdle now (suc n) m [] h = tt
take-AllIdle now (suc n) m (x ∷ l) h = (h.0, take-AllIdle now n m l h.1)

delete-AllIdle :
    (now : ℕ) (k : Text) (m : List (Text × RemoteState)) (l : List (Text × ℕ))
    → AllIdle now m l
    → AllIdle now (delete k m) l
delete-AllIdle now k m [] h = tt
delete-AllIdle now k m ((i, t) ∷ l) (idle, h) = elim (Bool-cases (text_eq k i)) [
  | inl e ↦ (rw (state_in-delete k i m, e) (omega arith, refl), delete-AllIdle now k m l h)
  | inr e ↦ (rw (state_in-delete k i m, e) idle, delete-AllIdle now k m l h)
]

-- What an eviction may do to the state of a remote: nothing, or forget it while it is idle.
pub data Forgets (now : ℕ) (st : RemoteState) : RemoteState → Type 0 where
  keeps : Forgets now st st
  forgets : IsIdle st now → Forgets now st fresh

Forgets-after :
    {now : ℕ} {st st' : RemoteState} → IsIdle st now → Forgets now fresh st' → Forgets now st st'
Forgets-after i keeps = forgets i
Forgets-after i (forgets j) = forgets i

delete_all-Forgets :
    (now : ℕ) (l : List (Text × ℕ)) (m : List (Text × RemoteState)) (j : Text)
    → AllIdle now m l
    → Forgets now (state_in m j) (state_in (delete_all l m) j)
unfolding delete_all
delete_all-Forgets now [] m j h = keeps
delete_all-Forgets now ((k, t) ∷ l) m j (idle, h) =
    let rest = delete_all-Forgets now l (delete k m) j (delete-AllIdle now k m l h) in
    elim (Bool-cases (text_eq k j)) [
      | inl e ↦ Forgets-after (rw (← (text_eq_iff k j).0 e) idle) (
          subst (λ st. Forgets now st (state_in (delete_all l (delete k m)) j))
            (state_in-delete k j m ∙ rw e refl) rest)
      | inr e ↦
          subst (λ st. Forgets now st (state_in (delete_all l (delete k m)) j))
            (state_in-delete k j m ∙ rw e refl) rest
    ]

-- Making room forgets idle remotes only.
pub make_room-Forgets :
    (l : Limiter) (now : ℕ) (j : Text)
    → Distinct l.remotes
    → Forgets now (state_in l.remotes j) (state_in (make_room l now).remotes j)
unfolding make_room evict_locked
make_room-Forgets l now j d = elim (Bool-cases (leb 4096 (length l.remotes))) [
  | inl e ↦ rw e (
      delete_all-Forgets now _ l.remotes j (
        take-AllIdle now 1024 l.remotes _ (
          sort-AllIdle now l.remotes _
            (AllHeld-AllIdle now l.remotes _ (candidates-held now l.remotes d)))))
  | inr e ↦ rw e keeps
]

delete_all-Distinct :
    (l : List (Text × ℕ)) (m : List (Text × RemoteState)) → Distinct m → Distinct (delete_all l m)
unfolding delete_all
delete_all-Distinct [] m d = d
delete_all-Distinct ((k, t) ∷ l) m d = delete_all-Distinct l (delete k m) (delete-Distinct k m d)

pub make_room-Distinct :
    (l : Limiter) (now : ℕ) → Distinct l.remotes → Distinct (make_room l now).remotes
unfolding make_room evict_locked
make_room-Distinct l now d =
    ground
      (arith, delete_all-Distinct (take 1024 (sort_by_time (candidates now l.remotes))) l.remotes d)

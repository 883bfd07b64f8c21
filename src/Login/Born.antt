-- ===== src/Login/Born.antt =====
-- When the sessions of a key were created, and the operations that keep it.
use ssh_gate_oss.Base.{
  ℕ, zero, suc, ◌≡◌, inl, inr, List, [], ◌∷◌, none, some, arith, Bool-cases, length, leb,
}
use ssh_gate_oss.Text.{Text, text_eq, lookup}
use ssh_gate_oss.Text.Laws.{text_eq_iff}
use ssh_gate_oss.Table.{put, delete}
use ssh_gate_oss.Login.Sessions.{
  Session, Auth, is_expired, live_sessions, oldest_of, evict_oldest, make_session_room,
}

-- Every entry of the key was created at the time `c`.
abbrev pub Born : Text → ℕ → List (Text × Session) → Type 0
Born key c [] = Unit
Born key c ((k, s) ∷ m) = (k ≡ key → s.created ≡ c) × Born key c m

pub delete-Born :
    (key k : Text) (c : ℕ) (m : List (Text × Session)) → Born key c m → Born key c (delete k m)
unfolding delete
delete-Born key k c [] b = tt
delete-Born key k c ((j, s) ∷ m) b = elim (Bool-cases (text_eq j k)) [
  | inl e ↦ rw (e, delete) (delete-Born key k c m b.1)
  | inr e ↦ rw (e, delete) (b.0, delete-Born key k c m b.1)
]

pub put-Born :
    (key k : Text) (c : ℕ) (s : Session) (m : List (Text × Session))
    → (k ≡ key → s.created ≡ c)
    → Born key c m
    → Born key c (put k s m)
unfolding put
put-Born key k c s [] h b = (h, tt)
put-Born key k c s ((j, t) ∷ m) h b = elim (Bool-cases (text_eq j k)) [
  | inl e ↦ rw (e, put) (h, b.1)
  | inr e ↦ rw (e, put) (b.0, put-Born key k c s m h b.1)
]

pub live_sessions-Born :
    (a : Auth) (now : ℕ) (key : Text) (c : ℕ) (m : List (Text × Session))
    → Born key c m
    → Born key c (live_sessions a now m)
unfolding live_sessions
live_sessions-Born a now key c [] b = tt
live_sessions-Born a now key c ((j, s) ∷ m) b = elim (Bool-cases (is_expired a s now)) [
  | inl e ↦ rw (e, live_sessions) (live_sessions-Born a now key c m b.1)
  | inr e ↦ rw (e, live_sessions) (b.0, live_sessions-Born a now key c m b.1)
]

pub make_session_room-Born :
    (fuel limit : ℕ) (key : Text) (c : ℕ) (m : List (Text × Session))
    → Born key c m
    → Born key c (make_session_room fuel limit m)
unfolding make_session_room
make_session_room-Born zero limit key c m b = b
make_session_room-Born (suc fuel) limit key c m b = elim (Bool-cases (leb limit (length m))) [
  | inl e ↦
      rw (e, make_session_room)
        (make_session_room-Born fuel limit key c (evict_oldest m) (evicted m b))
  | inr e ↦ rw (e, make_session_room) b
]
  where
    evicted : (m : List (Text × Session)) → Born key c m → Born key c (evict_oldest m)
    evicted [] b = tt
    evicted (p ∷ m) b = delete-Born key (oldest_of p m) c (p ∷ m) b

pub Born-created :
    (key : Text) (c : ℕ) (m : List (Text × Session)) (s : Session)
    → Born key c m
    → lookup key m ≡ some s
    → s.created ≡ c
unfolding lookup
Born-created key c [] s b h = cc
Born-created key c ((j, t) ∷ m) s b h =
    ground (arith, text_eq_iff j key, Born-created key c m s b.1)

pub unborn : (key : Text) (c : ℕ) (m : List (Text × Session)) → lookup key m ≡ none → Born key c m
unfolding lookup
unborn key c [] h = tt
unborn key c ((j, t) ∷ m) h = elim (Bool-cases (text_eq j key)) [
  | inl e ↦ absurd (ground arith)
  | inr e ↦ (λ q. ground (arith, text_eq_iff j key), unborn key c m (ground arith))
]
